-- ===== src/Connector/New.antt =====
-- `New` of tru.go: its parameters, and what it has started when it returns, with or without an
-- error. A callback is a number. Whether the socket opens and a key is generated comes from outside.
pub mod Settings
use tru.Base.{
  ℕ, ◌≡◌, refl, ap, ◌∙◌, Bool, true, false, not, ◌||◌, List, [], ◌∷◌, Option, none, some, Bytes,
  arith, if◌then◌else◌,
}
use tru.Teolog.Names.{set_level_text}
use tru.Teolog.{Teolog, new_teolog, set_filter}

abbrev pub start_send_delay : ℕ
start_send_delay = 15

-- A parameter by its type; `wrong` stands for every other type.
pub data Param : Type 0 where
  reader_func connect_func punch_func : ℕ → Param
  logger : Teolog → Param
  level : Bytes → Param
  filter : List Bytes → Param
  hotkey stat : Bool → Param
  private_key : Param
  max_data_len_type : ℕ → Param
  wrong : Param

pub data NewError : Type 0 where
  incorrect_attribute not_listening no_private_key : NewError

-- The new object; `printing` says whether the timer of the statistic runs, `has_conn` whether there
-- is a socket, and `running` whether its processes run.
pub record NewTru : Type 0 where
  pub reader : Option ℕ
  pub connectcb : Option ℕ
  pub punchcb : Option ℕ
  pub send_delay : ℕ
  pub max_data_len : ℕ
  pub has_hotkey : Bool
  pub printing : Bool
  pub has_conn : Bool
  pub running : Bool

-- The object, the logger of the package, and the variables of `New`.
pub record Parsed : Type 0 where
  pub tru : NewTru
  pub log : Option Teolog
  pub log_filter : List Bytes
  pub log_level : Bytes

abbrev pub start : Option Teolog → Parsed
start log = record {
  tru = record {
    reader = none;
    connectcb = none;
    punchcb = none;
    send_delay = start_send_delay;
    max_data_len = 0;
    has_hotkey = false;
    printing = false;
    has_conn = false;
    running = false;
  };
  log = log;
  log_filter = [];
  log_level = [];
}

-- A case of the `switch`.
unfoldable pub take_param : Param → Parsed → Parsed
take_param (reader_func v) s = record s { tru = record (s.tru) { reader = some v } }
take_param (connect_func v) s = record s { tru = record (s.tru) { connectcb = some v } }
take_param (punch_func v) s = record s { tru = record (s.tru) { punchcb = some v } }
take_param (logger v) s = record s { log = some v }
take_param (level v) s = record s { log_level = v }
take_param (filter v) s = record s { log_filter = v }
take_param (hotkey v) s = if v then record s { tru = record (s.tru) { has_hotkey = true } } else s
take_param (stat v) s = if v then record s { tru = record (s.tru) { printing = true } } else s
take_param private_key s = s
take_param (max_data_len_type v) s = record s { tru = record (s.tru) { max_data_len = v } }
take_param wrong s = s

unfoldable pub is_wrong : Param → Bool
is_wrong wrong = true
is_wrong _ = false

-- The loop over the parameters, and whether it came to its end.
unfoldable pub take_params : List Param → Parsed → Parsed × Bool
take_params [] s = (s, true)
take_params (v ∷ params) s =
    let rest = take_params params (take_param v s) in if is_wrong v then (s, false) else rest

unfoldable pub set_log : Parsed → Parsed
set_log s =
    let log : Teolog = elim s.log [ none ↦ new_teolog | some t ↦ t ] in
    record s { log = some (set_level_text s.log_level (set_filter s.log_filter log)) }

-- What follows the loop, which may not have come to its end.
unfoldable pub finish : Parsed → Bool → Bool → Bool → Parsed × Option NewError
finish s false listens has_key = (s, some incorrect_attribute)
finish s true false has_key = (set_log s, some not_listening)
finish s true true has_key =
    let heard = set_log (record s { tru = record (s.tru) { has_conn = true } }) in
    if has_key
    then (record heard { tru = record (heard.tru) { running = true } }, none)
    else (heard, some no_private_key)

unfoldable pub new : List Param → Option Teolog → Bool → Bool → Parsed × Option NewError
new params log listens has_key =
    let (s, whole) = take_params params (start log) in finish s whole listens has_key
