-- ===== src/StatusLists/Examples.antt =====
-- The theorems on the hosted status lists at two products.
use mathlib.Core.Bool.{false≢true}
use verifiably.Prelude.{◌≡◌, ◌≢◌, true, String, eq_iff}
use verifiably.Prelude.UrlSafe.{is_url_safe, all_chars}
use verifiably.StatusLists.{StatusListEntry, status_list_id}
use verifiably.StatusLists.Slugs.{status_list_id-apart}

abbrev as_is : String → String
as_is s = s

status_list_id-apart_example :
    (all_chars is_url_safe (status_list_id as_is "walt.id" "bitstring") ≡ true)
    × (all_chars is_url_safe (status_list_id as_is "walt.id" "token") ≡ true)
    × (status_list_id as_is "walt.id" "bitstring" ≢ status_list_id as_is "Inji Certify" "token")
status_list_id-apart_example = status_list_id-apart as_is "walt.id" "Inji Certify"

abbrev waltid : StatusListEntry
waltid = record { list_id = "walt-id-token"; dpg = "walt.id"; kind = "token" }

id_named : waltid.list_id ≢ ""
id_named e = false≢true ((eq_iff "walt-id-token" "").1 e)
