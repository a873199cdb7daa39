-- ===== src/Config/Host/Fields.antt =====
-- The id, the host and the port of a configuration.
use cornus.Base.{
  ◌≡◌, refl, Option, none, some, List, ◌∷◌, ◌++◌, Bool-cases, inl, inr, length, ltb, subst,
  some-injective,
}
use cornus.Base.Decimal.{to_string}
use cornus.Config.Transaction.{HostId}
use cornus.Config.Host.{
  HostJson, HostConfig, config_with, finish, sort, choose_replicators, new_host_config,
}

abbrev pub Names : HostJson → HostConfig → Type 0
Names j hc = (hc.id ≡ j.host ++ b':' ∷ to_string j.port) × (hc.host ≡ j.host) × (hc.port ≡ j.port)

finish-Names :
    (j : HostJson) (rs : Option (List HostId)) (hc : HostConfig)
    → finish j (j.host ++ b':' ∷ to_string j.port) (sort j.others) rs ≡ some hc
    → Names j hc
unfolding finish config_with
finish-Names j none hc e = cc
finish-Names j (some rs) hc e = subst (Names j) (some-injective _ _ e) (refl, refl, refl)

pub new_host_config-Names :
    (j : HostJson) (hc : HostConfig) → new_host_config j ≡ some hc → Names j hc
unfolding new_host_config
new_host_config-Names j hc e = elim (Bool-cases (ltb (length j.others) j.f)) [
  | inl q ↦ cc
  | inr q ↦
      finish-Names j (choose_replicators (j.host ++ b':' ∷ to_string j.port) (sort j.others) j.f) hc
        (rw q at e)
]
