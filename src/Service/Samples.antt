-- ===== src/Service/Samples.antt =====
-- Sample settings, surroundings and a request, for runs of the service.
use auto_configuration_serve.Prelude.{none, some, true, false, [], ◌∷◌}
use auto_configuration_serve.Prelude.Int.{pos}
use auto_configuration_serve.Otp.{alone, memory_issue}
use auto_configuration_serve.Service.{Settings, ConfigQuery, Outside, delivery_failed}

abbrev pub settings : Settings
settings = record {
  xml_content_type = "text/xml";
  default_rcs_profile = "UP_2.4";
  provisioning_validity_seconds = 86400;
  otp_policy = record {
    length = 2;
    ttl_seconds = 300;
    max_attempts = 3;
    resend_cooldown_seconds = 60;
    max_sends_per_day = 2;
  };
  token_ttl_seconds = 600;
  token_bind_imei = true;
  gba_enabled = false;
  gba_realm = "3GPP-bootstrapping@rcs";
  dm_enabled = true;
  dm_bootstrap_in_cp = true;
  sms_sender_id = "RCS";
}

-- A request over the cellular network, whose trusted header carries a number; no message goes out.
abbrev pub outside : Outside
outside = record {
  clock = 1000;
  digest = λ s. s;
  draws = record { digits = 4 ∷ 2 ∷ []; challenge_id = "a1" };
  fresh_token = "t0";
  fresh_password = "pw";
  fresh_nonce = "n0";
  issue = memory_issue;
  others = alone;
  send = λ r s. (s, delivery_failed);
  otp_text = λ s. s;
  enriched = record { msisdn = some "+8210"; trusted = true; reason = "" };
  authorization = none;
  bsf = none;
}

abbrev pub query : ConfigQuery
query = record {
  vers = pos 0;
  imsi = none;
  imei = some "35";
  msisdn = none;
  token = none;
  otp = none;
  sms_port = none;
  device_id = none;
  terminal_vendor = none;
  terminal_model = none;
  terminal_sw_version = none;
  client_vendor = none;
  client_version = none;
  rcs_profile = none;
}
