-- ===== src/Document/Runs.antt =====
-- The provisioning document at concrete trees.
use auto_configuration_serve.Prelude.{◌≡◌, refl, [], ◌∷◌}
use auto_configuration_serve.Document.{
  Characteristic, characteristic, leaf, node, ProvisioningDoc, wap_provisioningdoc_version, paths,
  type_of, add_parm, walk,
}

abbrev ims : Characteristic
ims =
    characteristic "APPLICATION" (record { name = "AppID"; value = "ap2001" } ∷ [])
      (node (characteristic "Ext" (record { name = "nat"; value = "1" } ∷ []) leaf) leaf)

abbrev document : ProvisioningDoc
document = record { version = wap_provisioningdoc_version; characteristics = ims ∷ [] }

-- The paths of the report.
reported : paths document ≡ "APPLICATION/AppID" ∷ "APPLICATION/Ext/nat" ∷ []
unfolding paths walk
reported = refl

keeps_type : (x : Characteristic) → type_of (add_parm "udp" "0" x) ≡ type_of x
unfolding add_parm
keeps_type (characteristic type_ parms children) = refl

abbrev empty_document : ProvisioningDoc
empty_document = record { version = wap_provisioningdoc_version; characteristics = [] }
