-- ===== src/Tests/Settings.antt =====
-- The theorem on the configuration at a concrete one.
use nyuka.Common.{◌*◌, ◌≡◌, ◌≢◌, ◌↔◌, true, txt, none, some, refl}
use nyuka.Jobs.Scheduler.{day}
use nyuka.Net.Address.{v4}
use nyuka.Api.Config.{RawConfig, Config, Libraries, default, validate, valid, panics}
use nyuka.Api.Config.Usable.{IsUsable, validate-valid_iff}

abbrev libraries : Libraries
libraries = record {
  is_url = λ t. true;
  parse_socket = λ t. some (record { ip = v4 0 0 0 0; port = 8080 });
  parse_ip = λ t. none;
  days = λ n. some (n * day);
  from_std = λ d. some d;
  simple_uuid = λ n. txt "0123456789abcdef0123456789abcdef";
  version = txt "0.1.0";
}

abbrev barebones : RawConfig
barebones = record default {
  database_url = txt "postgres://db/nyuka";
  library_root = txt "/library";
  data_dir = txt "/data";
  auth_mode = txt "none";
}

validate-valid_iff_example :
    (((c : Config) × (validate libraries barebones ≡ valid c))
      ↔ IsUsable libraries barebones (30 * day))
    × (validate libraries barebones ≢ panics)
validate-valid_iff_example = validate-valid_iff libraries barebones (30 * day) refl refl
