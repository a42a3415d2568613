-- ===== src/Seed/Rows/Fleet.antt =====
-- The INSERTs of `seed_sql` into the tables of companies, stations and devices.
use Prim.Native.String.{◌++◌}
use python_vs_go_pos_benchma.Prelude.{
  ℕ, ◌+◌, ◌-◌, ◌%◌, Bool, true, some, String, codes, List, map, ◌==◌,
}
use python_vs_go_pos_benchma.Schema.{seconds}
use python_vs_go_pos_benchma.Schema.Fleet.{
  Company, PanelUser, Station, Device, DeviceStatus, Credential, Configuration, DeviceState,
  HeartbeatRow,
}
use python_vs_go_pos_benchma.Seed.Decimal.{decimal, lpad}
use python_vs_go_pos_benchma.Seed.Series.{range, join, serial}
use python_vs_go_pos_benchma.Seed.Profile.{Profile}
use python_vs_go_pos_benchma.Seed.Rows.Given.{Digests, fixed_ts}

module _ (digest : Digests) (cfg : Profile) where
  unfoldable pub companies : List Company
  companies = map (λ g. record { id = g; name = "Company " ++ decimal g }) (range 1 cfg.companies)

  unfoldable pub panel_users : List PanelUser
  panel_users = serial 1 (
      map
        (λ g id. record {
          id = id;
          company_id = g;
          token_hash = digest.sha256 (codes ("panel-company-" ++ decimal g));
          active = true;
        })
        (range 1 cfg.companies))

  abbrev pub station : ℕ → Station
  station g = record { id = g; company_id = (g - 1) % cfg.companies + 1 }

  unfoldable pub stations : List Station
  stations = map station (range 1 cfg.stations)

  -- The external key of a station, which only a configuration's snapshot holds.
  abbrev pub station_key : ℕ → String
  station_key g = "stn-" ++ lpad 6 (decimal g)

  abbrev pub device : ℕ → Device
  device g = record {
    id = g;
    station_id = (g - 1) % cfg.stations + 1;
    external_key = "dev-" ++ lpad 7 (decimal g);
    status = DeviceStatus.active;
  }

  unfoldable pub devices : List Device
  devices = map device (range 1 cfg.devices)

  unfoldable pub credentials : List Credential
  credentials = serial 1 (
      map
        (λ d id. record {
          id = id;
          device_id = d.id;
          credential_hash = digest.sha256 (codes ("credential-" ++ decimal d.id));
          is_active = true;
        })
        devices)

  -- FROM devices d JOIN stations s ON s.id = d.station_id
  abbrev pub at_station : Device → Station → Bool
  at_station d s = s.id == d.station_id

  unfoldable pub configurations : List Configuration
  configurations = serial 1 (
      map
        (λ r id. record {
          id = id;
          device_id = r.0.id;
          version = 1;
          is_published = true;
          checksum = digest.md5 ("configuration-" ++ (decimal r.0.id ++ "-1"));
          snapshot = digest.snapshot r.0.external_key (station_key r.1.id);
        })
        (join at_station devices stations))

  unfoldable pub device_states : List DeviceState
  device_states =
      map
        (λ d. record {
          device_id = d.id;
          last_seen_at = some (fixed_ts + seconds (d.id % 60));
          app_version = some "1.0.0";
          state_payload = "{}";
          acknowledged_version = some 1;
          updated_at = fixed_ts + seconds (d.id % 60);
        })
        devices

  unfoldable pub heartbeats : List HeartbeatRow
  heartbeats =
      map
        (λ d. record {
          device_id = d.id;
          occurred_at = fixed_ts + seconds (d.id % 60);
          received_at = fixed_ts + seconds (d.id % 60);
          sequence = some d.id;
          payload = "{}";
        })
        devices
