-- ===== src/Vers/Runs.antt =====
-- The version table at concrete versions.
use auto_configuration_serve.Prelude.{◌≡◌, refl, [], ◌∷◌}
use auto_configuration_serve.Prelude.Int.{pos, negsuc}
use auto_configuration_serve.Vers.{forceable_versions}

forceable : forceable_versions ≡ pos 0 ∷ negsuc 0 ∷ negsuc 1 ∷ negsuc 2 ∷ negsuc 3 ∷ []
unfolding forceable_versions
forceable = refl
