-- ===== src/Prelude/Dict.antt =====
-- A Python `dict` with text keys, as an association list in insertion order.
use Prim.Native.String.{String}
use mathlib.Core.Path.{◌≡◌, refl, ap}
use mathlib.Core.Option.{Option, none, some}
use mathlib.Core.List.{List, [], ◌∷◌, map}
use native.Mathlib.Omega.{arith}
use text.Mathlib.Text.{◌==◌ as str_eq}
use text.Mathlib.TextEquality.{eq_iff}
use text.Mathlib.TextPositions.{eq_refl}
use auto_configuration_serve.Prelude.Tests.{if◌then◌else◌}

pub record Dict {ℓ} (V : Type ℓ) : Type ℓ where
  pub entries : List (String × V)

module _ {ℓ} {V : Type ℓ} where
  get_in : List (String × V) → String → Option V
  get_in [] k = none
  get_in ((j, v) ∷ m) k = if str_eq j k then some v else get_in m k

  put_in : List (String × V) → String → V → List (String × V)
  put_in [] k v = (k, v) ∷ []
  put_in ((j, w) ∷ m) k v = if str_eq j k then (j, v) ∷ m else (j, w) ∷ put_in m k v

  pop_in : List (String × V) → String → List (String × V)
  pop_in [] k = []
  pop_in ((j, w) ∷ m) k = let rest = pop_in m k in if str_eq j k then rest else (j, w) ∷ rest

  abbrev pub empty : Dict V
  empty = record { entries = [] }

  -- `d.get(k)`, `d[k] = v` and `d.pop(k, None)`
  unfoldable pub get : Dict V → String → Option V
  unfolding get_in
  get held key = get_in held.entries key

  unfoldable pub put : Dict V → String → V → Dict V
  unfolding put_in
  put held key value = record { entries = put_in held.entries key value }

  unfoldable pub pop : Dict V → String → Dict V
  unfolding pop_in
  pop held key = record { entries = pop_in held.entries key }

  -- `list(d.values())`
  unfoldable pub values : Dict V → List V
  values d = map (λ e. e.1) d.entries

  map_in : (V → V) → List (String × V) → List (String × V)
  map_in f [] = []
  map_in f ((j, v) ∷ m) = (j, f v) ∷ map_in f m

  -- A loop that changes each value in place.
  unfoldable pub map_values : (V → V) → Dict V → Dict V
  unfolding map_in
  map_values f d = record { entries = map_in f d.entries }

  get_in-map_in :
      (f : V → V) (m : List (String × V)) (k : String)
      → get_in (map_in f m) k ≡ elim (get_in m k) [ none ↦ none | some v ↦ some (f v) ]
  unfolding get_in map_in
  get_in-map_in f [] k = refl
  get_in-map_in f ((i, w) ∷ m) k = ground (arith, eq_iff i k, get_in-map_in f m k)

  get_in-put_in :
      (m : List (String × V)) (k j : String) (v : V)
      → get_in (put_in m k v) j ≡ (if str_eq k j then some v else get_in m j)
  unfolding get_in put_in
  get_in-put_in [] k j v = refl
  get_in-put_in ((i, w) ∷ m) k j v =
      ground (arith, eq_iff k j, eq_iff i k, eq_iff i j, get_in-put_in m k j v)

  get_in-pop_in :
      (m : List (String × V)) (k j : String)
      → get_in (pop_in m k) j ≡ (if str_eq k j then none else get_in m j)
  unfolding get_in pop_in
  get_in-pop_in [] k j = ground arith
  get_in-pop_in ((i, w) ∷ m) k j =
      ground (arith, eq_iff k j, eq_iff i k, eq_iff i j, get_in-pop_in m k j)

  pub get-put :
      (held : Dict V) (key other : String) (value : V)
      → get (put held key value) other ≡ (if str_eq key other then some value else get held other)
  unfolding get put
  get-put held key other value = get_in-put_in held.entries key other value

  pub get-pop :
      (held : Dict V) (key other : String)
      → get (pop held key) other ≡ (if str_eq key other then none else get held other)
  unfolding get pop
  get-pop held key other = get_in-pop_in held.entries key other

  pub get-map_values :
      (f : V → V) (d : Dict V) (k : String)
      → get (map_values f d) k ≡ elim (get d k) [ none ↦ none | some v ↦ some (f v) ]
  unfolding get map_values
  get-map_values f d k = get_in-map_in f d.entries k

  values-map_in :
      (f : V → V) (m : List (String × V))
      → map (λ (e : String × V). e.1) (map_in f m) ≡ map f (map (λ (e : String × V). e.1) m)
  unfolding map_in
  values-map_in f [] = refl
  values-map_in f ((j, v) ∷ m) = ap (λ t. f v ∷ t) (values-map_in f m)

  pub values-map_values : (f : V → V) (d : Dict V) → values (map_values f d) ≡ map f (values d)
  unfolding values map_values
  values-map_values f d = values-map_in f d.entries

  pub get-put_self : (d : Dict V) (k : String) (v : V) → get (put d k v) k ≡ some v
  get-put_self d k v = simp (get-put, eq_refl)

  pub get-pop_self : (d : Dict V) (k : String) → get (pop d k) k ≡ none
  get-pop_self d k = simp (get-pop, eq_refl)

  pub get-empty : (k : String) → get empty k ≡ none
  unfolding get
  get-empty k = refl

pub ruleset dict_laws = (get-pop, get-put, get-put_self, get-pop_self, get-empty)
