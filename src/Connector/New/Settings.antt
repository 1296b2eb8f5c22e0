-- ===== src/Connector/New/Settings.antt =====
-- What `New` makes of its parameters (tru.go).
use tru.Base.{
  ℕ, ◌≡◌, refl, subst, Bool, true, false, not, ◌&&◌, ◌||◌, List, [], ◌∷◌, Option, none, some, Bytes,
  if◌then◌else◌,
}
use tru.Teolog.Names.{set_level_text}
use tru.Teolog.{Teolog, new_teolog, set_filter}
use tru.Connector.New.{
  NewError, incorrect_attribute, not_listening, no_private_key, Param, reader_func, connect_func,
  punch_func, logger, level, filter, hotkey, stat, max_data_len_type, wrong, Parsed, start,
  take_param, is_wrong, take_params, set_log, finish, new,
}

-- The parameters before the first wrong one, and the last of a type among them.
abbrev pub before_wrong : List Param → List Param
before_wrong [] = []
before_wrong (v ∷ params) = let rest = before_wrong params in if is_wrong v then [] else v ∷ rest

abbrev pub has_wrong : List Param → Bool
has_wrong [] = false
has_wrong (v ∷ params) = is_wrong v || has_wrong params

abbrev pub last_or {ℓ} : {A : Type ℓ} → (Param → Option A) → A → List Param → A
last_or f x [] = x
last_or f x (v ∷ params) = last_or f (elim (f v) [ none ↦ x | some y ↦ y ]) params

abbrev pub as_level : Param → Option Bytes
as_level (level v) = some v
as_level _ = none

abbrev pub as_filter : Param → Option (List Bytes)
as_filter (filter v) = some v
as_filter _ = none

abbrev pub as_logger : Param → Option (Option Teolog)
as_logger (logger v) = some (some v)
as_logger _ = none

abbrev pub as_max : Param → Option ℕ
as_max (max_data_len_type v) = some v
as_max _ = none

abbrev pub as_stat : Param → Option Bool
as_stat (stat true) = some true
as_stat _ = none

abbrev pub as_reader : Param → Option (Option ℕ)
as_reader (reader_func v) = some (some v)
as_reader _ = none

abbrev pub as_connect : Param → Option (Option ℕ)
as_connect (connect_func v) = some (some v)
as_connect _ = none

abbrev pub as_punch : Param → Option (Option ℕ)
as_punch (punch_func v) = some (some v)
as_punch _ = none

abbrev pub as_hotkey : Param → Option Bool
as_hotkey (hotkey true) = some true
as_hotkey _ = none

-- What the loop leaves, field by field.
record IsTaken (params : List Param) (s t : Parsed) : Type 0 where
  log : t.log ≡ last_or as_logger s.log params
  log_level : t.log_level ≡ last_or as_level s.log_level params
  log_filter : t.log_filter ≡ last_or as_filter s.log_filter params
  max_data_len : t.tru.max_data_len ≡ last_or as_max s.tru.max_data_len params
  printing : t.tru.printing ≡ last_or as_stat s.tru.printing params
  reader : t.tru.reader ≡ last_or as_reader s.tru.reader params
  connectcb : t.tru.connectcb ≡ last_or as_connect s.tru.connectcb params
  punchcb : t.tru.punchcb ≡ last_or as_punch s.tru.punchcb params
  has_hotkey : t.tru.has_hotkey ≡ last_or as_hotkey s.tru.has_hotkey params
  running : t.tru.running ≡ s.tru.running

take_params-IsTaken :
    (params : List Param) (s : Parsed)
    → IsTaken (before_wrong params) s (take_params params s).0
      × ((take_params params s).1 ≡ not (has_wrong params))
unfolding take_params take_param is_wrong
take_params-IsTaken [] s = (
  record {
    log = refl;
    log_level = refl;
    log_filter = refl;
    max_data_len = refl;
    printing = refl;
    reader = refl;
    connectcb = refl;
    punchcb = refl;
    has_hotkey = refl;
    running = refl;
  },
  refl,
)
take_params-IsTaken (wrong ∷ params) s = (
  record {
    log = refl;
    log_level = refl;
    log_filter = refl;
    max_data_len = refl;
    printing = refl;
    reader = refl;
    connectcb = refl;
    punchcb = refl;
    has_hotkey = refl;
    running = refl;
  },
  refl,
)
take_params-IsTaken (hotkey true ∷ params) s =
    let (t, whole) = take_params-IsTaken params (take_param (hotkey true) s) in
    (
      record {
        log = t.log;
        log_level = t.log_level;
        log_filter = t.log_filter;
        max_data_len = t.max_data_len;
        printing = t.printing;
        reader = t.reader;
        connectcb = t.connectcb;
        punchcb = t.punchcb;
        has_hotkey = t.has_hotkey;
        running = t.running;
      },
      whole,
    )
take_params-IsTaken (hotkey false ∷ params) s =
    let (t, whole) = take_params-IsTaken params (take_param (hotkey false) s) in
    (
      record {
        log = t.log;
        log_level = t.log_level;
        log_filter = t.log_filter;
        max_data_len = t.max_data_len;
        printing = t.printing;
        reader = t.reader;
        connectcb = t.connectcb;
        punchcb = t.punchcb;
        has_hotkey = t.has_hotkey;
        running = t.running;
      },
      whole,
    )
take_params-IsTaken (stat true ∷ params) s =
    let (t, whole) = take_params-IsTaken params (take_param (stat true) s) in
    (
      record {
        log = t.log;
        log_level = t.log_level;
        log_filter = t.log_filter;
        max_data_len = t.max_data_len;
        printing = t.printing;
        reader = t.reader;
        connectcb = t.connectcb;
        punchcb = t.punchcb;
        has_hotkey = t.has_hotkey;
        running = t.running;
      },
      whole,
    )
take_params-IsTaken (stat false ∷ params) s =
    let (t, whole) = take_params-IsTaken params (take_param (stat false) s) in
    (
      record {
        log = t.log;
        log_level = t.log_level;
        log_filter = t.log_filter;
        max_data_len = t.max_data_len;
        printing = t.printing;
        reader = t.reader;
        connectcb = t.connectcb;
        punchcb = t.punchcb;
        has_hotkey = t.has_hotkey;
        running = t.running;
      },
      whole,
    )
take_params-IsTaken (v ∷ params) s =
    let (t, whole) = take_params-IsTaken params (take_param v s) in
    (
      record {
        log = t.log;
        log_level = t.log_level;
        log_filter = t.log_filter;
        max_data_len = t.max_data_len;
        printing = t.printing;
        reader = t.reader;
        connectcb = t.connectcb;
        punchcb = t.punchcb;
        has_hotkey = t.has_hotkey;
        running = t.running;
      },
      whole,
    )

abbrev pub logged : List Param → Option Teolog → Teolog
logged params log =
    let last = last_or as_logger log params in
    set_level_text (last_or as_level [] params)
      (set_filter (last_or as_filter [] params) (elim last [ none ↦ new_teolog | some t ↦ t ]))

abbrev pub Settled :
    List Param → Option Teolog → Bool → Bool → Bool → Parsed × Option NewError → Type 0
Settled used log whole listens has_key (s, err) =
    (err ≡ (
      if not whole
      then some incorrect_attribute
      else if not listens
      then some not_listening
      else if not has_key
      then some no_private_key
      else none))
    × (s.tru.max_data_len ≡ last_or as_max 0 used)
    × (s.tru.reader ≡ last_or as_reader none used)
    × (s.tru.connectcb ≡ last_or as_connect none used)
    × (s.tru.punchcb ≡ last_or as_punch none used)
    × (s.tru.has_hotkey ≡ last_or as_hotkey false used)
    × (s.tru.printing ≡ last_or as_stat false used)
    × (s.tru.running ≡ (whole && (listens && has_key)))
    × (s.log ≡ (if whole then some (logged used log) else last_or as_logger log used))

finish-Settled :
    (used : List Param) (log : Option Teolog) (s : Parsed) (whole listens has_key : Bool)
    → IsTaken used (start log) s
    → Settled used log whole listens has_key (finish s whole listens has_key)
unfolding finish set_log
finish-Settled used log s false listens has_key t = (
  refl, t.max_data_len, t.reader, t.connectcb, t.punchcb, t.has_hotkey, t.printing, t.running,
  t.log,
)
finish-Settled used log s true false has_key t = (
  refl,
  t.max_data_len,
  t.reader,
  t.connectcb,
  t.punchcb,
  t.has_hotkey,
  t.printing,
  t.running,
  rw (t.log, t.log_level, t.log_filter) refl,
)
finish-Settled used log s true true false t = (
  refl,
  t.max_data_len,
  t.reader,
  t.connectcb,
  t.punchcb,
  t.has_hotkey,
  t.printing,
  t.running,
  rw (t.log, t.log_level, t.log_filter) refl,
)
finish-Settled used log s true true true t = (
  refl,
  t.max_data_len,
  t.reader,
  t.connectcb,
  t.punchcb,
  t.has_hotkey,
  t.printing,
  refl,
  rw (t.log, t.log_level, t.log_filter) refl,
)

-- `New` takes of each kind of callback, of the length limits, levels, filters and loggers the last parameter that stands before the first one of a wrong type,
-- and fails for a wrong type, a socket that does not open, or a key that is not generated, in this
-- order. The statistic is printed and the menu is there from then on just when a parameter asked for it, also when `New`
-- fails. Without a wrong type the logger, which is the last one given, the one that there was, or a
-- new one, has the filter and the level. The processes run just when there is no error.
pub new_settings :
    (params : List Param) (log : Option Teolog) (listens has_key : Bool)
    → Settled
        (before_wrong params)
        log
        (not (has_wrong params))
        listens
        has_key
        (new params log listens has_key)
unfolding new
new_settings params log listens has_key =
    let (t, whole) = take_params-IsTaken params (start log) in
    let s = (take_params params (start log)).0 in
    subst
      (λ (b : Bool).
        Settled (before_wrong params) log b listens has_key
          (finish s (take_params params (start log)).1 listens has_key))
      whole
      (finish-Settled (before_wrong params) log s (take_params params (start log)).1 listens has_key
        t)
