-- ===== src/Auth.antt =====
-- Who sends a request: python/app/auth.py, and the panel's part of python/app/dashboard.py.
use python_vs_go_pos_benchma.Prelude.{
  ℕ, Bool, not, ◌&&◌, Option, none, some, String, Text, codes, starts_with, drop_prefix, strip,
  ◌==◌, str_eq, is_none, find, if◌then◌else◌, [],
}
use python_vs_go_pos_benchma.Schema.{Db}
use python_vs_go_pos_benchma.Schema.Fleet.{Device, Credential, PanelUser, device_is_active}
use python_vs_go_pos_benchma.Errors.{Error, Result, ok, failure, or_raise, raise_if, ◌>>=◌, ◌>>◌}

-- `authorization.removeprefix(scheme).strip()`, or "" if the header is missing or does not begin
-- with the scheme.
abbrev pub token_behind : Text → Option Text → Text
token_behind scheme none = []
token_behind scheme (some header) =
    if starts_with scheme header then strip (drop_prefix scheme header) else []

unfoldable pub device_token : Option Text → Text
device_token = token_behind (codes "Device ")

unfoldable pub bearer_token : Option Text → Text
bearer_token = token_behind (codes "Bearer ")

abbrev pub invalid_device : Error
invalid_device = failure 401 "INVALID_DEVICE_CREDENTIAL" "Cihaz kimliği doğrulanamadı."

abbrev invalid_panel : Error
invalid_panel = failure 401 "INVALID_PANEL_CREDENTIAL" "Panel kimliği doğrulanamadı."

-- `sha256` is hashlib's digest in hexadecimal.
module _ (sha256 : Text → String) where
  -- The WHERE clause of the lookup in device_credentials.
  abbrev pub is_credential : ℕ → Text → Credential → Bool
  is_credential device_id token c =
      c.device_id == device_id && str_eq c.credential_hash (sha256 token) && c.is_active

  unfoldable pub authenticate_device : ℕ → Text → Db → Result Device
  authenticate_device device_id token db = do
    let credential = find (is_credential device_id token) db.credentials
    raise_if (is_none credential) invalid_device
    device ← or_raise (find (λ d. d.id == device_id) db.devices) invalid_device
    raise_if (not (device_is_active device.status)) invalid_device
    ok device

  unfoldable pub authenticate_panel : Text → Db → Result PanelUser
  authenticate_panel token db =
      or_raise (find (λ u. str_eq u.token_hash (sha256 token) && u.active) db.panel_users)
        invalid_panel
