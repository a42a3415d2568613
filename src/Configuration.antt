-- ===== src/Configuration.antt =====
-- python/app/configuration.py: the published configuration of a device.
use python_vs_go_pos_benchma.Prelude.{
  ℕ, Bool, true, not, ◌&&◌, Option, none, some, String, ◌==◌, select, List, [], ◌∷◌,
}
use python_vs_go_pos_benchma.Schema.{Db}
use python_vs_go_pos_benchma.Schema.Fleet.{Configuration}
use python_vs_go_pos_benchma.Errors.{Error, Result, ok, err, failure, ◌>>=◌}

-- The answer; the fields of the snapshot follow these in the JSON object.
pub record ConfigurationView : Type 0 where
  pub id : ℕ
  pub version : ℕ
  pub checksum : String
  pub update_available : Bool
  pub snapshot : String

abbrev pub is_published_for : ℕ → Configuration → Bool
is_published_for device_id c = c.device_id == device_id && c.is_published

-- `current_version != version`, where the request may give no version
abbrev pub differs : Option ℕ → ℕ → Bool
differs none version = true
differs (some current) version = not (current == version)

-- `.one_or_none()`: no row, one row, or the exception MultipleResultsFound
abbrev pub one_or_none : {A : Type 0} → List A → Result (Option A)
one_or_none [] = ok none
one_or_none (x ∷ []) = ok (some x)
one_or_none (x ∷ y ∷ xs) = err (Error.driver_error "MultipleResultsFound")

abbrev view_of : Option ℕ → Option Configuration → Result ConfigurationView
view_of current_version none =
    err (failure 404 "CONFIGURATION_NOT_FOUND" "Cihaz yapılandırması bulunamadı.")
view_of current_version (some c) = ok (record {
  id = c.id;
  version = c.version;
  checksum = c.checksum;
  update_available = differs current_version c.version;
  snapshot = c.snapshot;
})

unfoldable pub get_configuration : ℕ → Option ℕ → Db → Result ConfigurationView
get_configuration device_id current_version db = do
  row ← one_or_none (select (is_published_for device_id) db.configurations)
  view_of current_version row
