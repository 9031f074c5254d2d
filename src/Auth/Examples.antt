-- ===== src/Auth/Examples.antt =====
-- The theorems on the providers at a file of one provider.
use verifiably.Prelude.{◌≡◌, refl, true, [], ◌∷◌}
use verifiably.Prelude.Outcome.{ok}
use verifiably.Prelude.Texts.{trim_space, trim_left, trim_right, is_space}
use verifiably.Auth.{
  ProviderConfig, File, holding, written, from_user, load, save, upsert, drop_first, add, remove,
}
use verifiably.Auth.Laws.{Upserted, load-add}

abbrev keycloak : ProviderConfig
keycloak = record { id = "keycloak"; settings = "https://idp.example"; source = "" }

abbrev esignet : ProviderConfig
esignet = record { id = "esignet"; settings = "https://esignet.example"; source = "system" }

abbrev file : File
file = holding (keycloak ∷ [])

loaded : load file ≡ ok (from_user keycloak ∷ [])
unfolding load
loaded = refl

added : (add written esignet file).1 ≡ ok (from_user keycloak ∷ from_user esignet ∷ [])
unfolding add load save upsert trim_space trim_left trim_right is_space
added = refl

load-add_example :
    (load (add written esignet file).0 ≡ ok (from_user keycloak ∷ from_user esignet ∷ []))
    × Upserted esignet (from_user keycloak ∷ []) (from_user keycloak ∷ from_user esignet ∷ [])
load-add_example =
    load-add written esignet file (from_user keycloak ∷ [])
      (from_user keycloak ∷ from_user esignet ∷ []) loaded added

removed : (remove written "keycloak" file).1 ≡ ok ([], true)
unfolding remove load save drop_first
removed = refl
