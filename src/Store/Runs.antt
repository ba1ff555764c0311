-- ===== src/Store/Runs.antt =====
-- The theorems on the memory store's subscribers and tokens at concrete stores.
use auto_configuration_serve.Prelude.{◌≡◌, ◌≢◌, refl, none, some, true, false, [], arith, eq_iff}
use auto_configuration_serve.Prelude.Int.{pos}
use auto_configuration_serve.Prelude.Dict
use auto_configuration_serve.Models.{Subscriber, TokenRecord}
use auto_configuration_serve.Store.{
  MemoryStore, empty_store, get_subscriber, get_subscriber_by_msisdn, put_subscriber,
  delete_subscriber, index_without_old, put_token,
}
use auto_configuration_serve.Store.Subscribers.{
  Provisioned, none_yet, stored, get_subscriber_by_msisdn_sound, delete_subscriber_shared,
}
use auto_configuration_serve.Store.Aliasing.{edit_subscriber, edit_subscriber_stale}

abbrev ann : Subscriber
ann = record {
  imsi = "45001";
  msisdn = "+8210";
  entitled = true;
  provisioning_version = pos 1;
  forced_vers = none;
  rcs_profile = "";
  imei_allowlist = [];
  overrides = Dict.empty;
  dm_password = "";
  volte_enabled = true;
  created_at = 0;
  updated_at = 0;
}

abbrev ann_moved : Subscriber
ann_moved = record ann { msisdn = "+8230" }

abbrev ben : Subscriber
ben = record ann { imsi = "45002"; msisdn = "+8220" }

abbrev ben_shared : Subscriber
ben_shared = record ann { imsi = "45002" }

abbrev both : MemoryStore
both = put_subscriber (put_subscriber empty_store ann) ben

both_provisioned : Provisioned both
both_provisioned = stored ben (stored ann none_yet)

found_by_number : get_subscriber_by_msisdn both "+8220" ≡ some ben
unfolding put_subscriber index_without_old get_subscriber_by_msisdn Dict.get Dict.put Dict.pop
found_by_number = refl

get_subscriber_by_msisdn_sound_example :
    (ben.msisdn ≡ "+8220") × (get_subscriber both "45002" ≡ some ben)
get_subscriber_by_msisdn_sound_example =
    get_subscriber_by_msisdn_sound both_provisioned "+8220" ben found_by_number

-- Ann takes another number: her old one finds nobody.

-- The console gives Ben another number: his old one still finds him.
new_number : "+8240" ≢ ben.msisdn
new_number = ground (arith, eq_iff "+8240" "+8220")

edit_subscriber_stale_example :
    (get_subscriber_by_msisdn (edit_subscriber both (record ben { msisdn = "+8240" })) "+8220"
      ≡ some (record ben { msisdn = "+8240" }))
    × (get_subscriber_by_msisdn (edit_subscriber both (record ben { msisdn = "+8240" })) "+8240"
        ≡ some (record ben { msisdn = "+8240" }))
edit_subscriber_stale_example =
    edit_subscriber_stale both_provisioned ben (record ben { msisdn = "+8240" }) found_by_number
      refl new_number

abbrev sharing : MemoryStore
sharing = put_subscriber (put_subscriber empty_store ann) ben_shared

ann_there : get_subscriber sharing "45001" ≡ some ann
unfolding put_subscriber index_without_old get_subscriber Dict.get Dict.put Dict.pop
ann_there = refl

ben_there : get_subscriber sharing "45002" ≡ some ben_shared
unfolding put_subscriber index_without_old get_subscriber Dict.get Dict.put Dict.pop
ben_there = refl

two_imsis : ann.imsi ≢ ben_shared.imsi
two_imsis = ground (arith, eq_iff "45001" "45002")

delete_subscriber_shared_example :
    (get_subscriber (delete_subscriber sharing "45001") "45002" ≡ some ben_shared)
    × (get_subscriber_by_msisdn (delete_subscriber sharing "45001") "+8210" ≡ none)
delete_subscriber_shared_example =
    delete_subscriber_shared sharing ann ben_shared ann_there ben_there two_imsis refl

abbrev held : TokenRecord
held = record {
  token_hash = "t0";
  imsi = "45001";
  imei = none;
  issued_at = 0;
  expires_at = 600;
  revoked = false;
}

abbrev holding : MemoryStore
holding = put_token (put_token empty_store held) (record held { token_hash = "t1"; imsi = "45002" })
