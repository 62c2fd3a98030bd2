-- ===== src/Extern.antt =====
-- What the program takes from GLib, json-glib and EventDance, as parameters: nothing is known of
-- these functions but what a theorem names. `Node` stands for JsonNode; connections and requests
-- are known by number.
use pool_dance.Prelude.{ℕ, Bool, Option, Str}

pub record Extern (Node : Type 0) : Type 0 where
  -- JSON_NODE_HOLDS_OBJECT
  pub holds_object : Node → Bool
  -- json_object_get_string_member on json_node_get_object; `none` is NULL
  pub object_string : Node → Str → Option Str
  -- json_array_get_string_element on json_node_get_array
  pub array_string : Node → ℕ → Option Str
  -- json_object_set_string_member on json_node_get_object
  pub set_object_string : Node → Str → Str → Node
  -- json_generator_to_data
  pub to_text : Node → Str
  -- g_ascii_strtoull (s, NULL, 16)
  pub ascii_strtoull16 : Str → ℕ
  -- GUINT32_SWAP_LE_BE
  pub swap_le_be : ℕ → ℕ
  -- g_checksum_update and g_checksum_get_digest on a fresh SHA-256 checksum
  pub sha256 : Str → Str
  -- evd_http_connection_get_current_request
  pub current_request : ℕ → ℕ
  -- evd_http_request_get_basic_auth_credentials: user and password
  pub credentials : ℕ → Option Str × Option Str
  -- evd_socket_get_remote_address_str of a connection's socket
  pub remote_address : ℕ → Option Str
  -- the User-Agent header of a request
  pub user_agent : ℕ → Option Str

-- A GKeyFile: g_key_file_get_string by group and key, NULL if it is missing, and
-- g_key_file_get_integer as a guint, 0 if it is missing.
pub record KeyFile : Type 0 where
  pub string : Str → Str → Option Str
  pub integer : Str → Str → ℕ
