-- ===== src/Simulator/Config.antt =====
-- services/station-simulator-service/app/simulator/config_parser.py, on texts as lists of characters by
-- their codes.
pub mod RoundTrip
use dark_kitchen_simulator.Prelude.{
  ℕ, zero, suc, Option, none, some, List, [], ◌∷◌, ◌++◌, Bool, true, false, ◌&&◌, ◌||◌, ◌==◌,
  if◌then◌else◌,
}
use dark_kitchen_simulator.Prelude.Exec.{Result, ok, err}

abbrev pub Text : Type 0
Text = List ℕ

pub data ℤ : Type 0 where
  pos negsuc : ℕ → ℤ

-- What the parser uses of Python: the characters that `strip` takes off, `int(…)`, where `none` is its
-- ValueError, and `str(…)` of a natural number.
pub record Python : Type 0 where
  pub is_space : ℕ → Bool
  pub int_of : Text → Option ℤ
  pub str_of : ℕ → Text

pub record WorkerConfig : Type 0 where
  pub worker_id : Text
  pub station_id : Text

-- The messages of the ValueErrors.
pub data ConfigError : Type 0 where
  config_empty item_format station_id_empty : ConfigError
  duplicate_station_id : Text → ConfigError
  count_not_integer count_not_positive : ConfigError

abbrev pub comma : ℕ
comma = 44

abbrev pub colon : ℕ
colon = 58

-- `"-worker-"`
abbrev pub worker_infix : Text
worker_infix = 45 ∷ 119 ∷ 111 ∷ 114 ∷ 107 ∷ 101 ∷ 114 ∷ 45 ∷ []

abbrev pub is_empty : Text → Bool
is_empty [] = true
is_empty (c ∷ cs) = false

unfoldable pub strip_left : Python → Text → Text
strip_left py [] = []
strip_left py (c ∷ cs) = let rest = strip_left py cs in if py.is_space c then rest else c ∷ cs

unfoldable pub strip_right : Python → Text → Text
strip_right py [] = []
strip_right py (c ∷ cs) =
    let rest = strip_right py cs in if is_empty rest && py.is_space c then [] else c ∷ rest

abbrev pub strip : Python → Text → Text
strip py text = strip_left py (strip_right py text)

abbrev pub prepend : ℕ → List Text → List Text
prepend c [] = (c ∷ []) ∷ []
prepend c (t ∷ ts) = (c ∷ t) ∷ ts

-- `text.split(c)`
unfoldable pub split : ℕ → Text → List Text
split c [] = [] ∷ []
split c (x ∷ xs) = let rest = split c xs in if x == c then [] ∷ rest else prepend x rest

abbrev pub prepend_cut : ℕ → Option (Text × Text) → Option (Text × Text)
prepend_cut c none = none
prepend_cut c (some (a, b)) = some (c ∷ a, b)

-- `text.split(c, 1)`, if `c in text`
unfoldable pub cut : ℕ → Text → Option (Text × Text)
cut c [] = none
cut c (x ∷ xs) = let rest = cut c xs in if x == c then some ([], xs) else prepend_cut x rest

unfoldable pub same_text : Text → Text → Bool
same_text [] [] = true
same_text [] (y ∷ ys) = false
same_text (x ∷ xs) [] = false
same_text (x ∷ xs) (y ∷ ys) = x == y && same_text xs ys

unfoldable pub is_seen : Text → List Text → Bool
is_seen t [] = false
is_seen t (x ∷ xs) = same_text x t || is_seen t xs

-- `range(index, index + count)`
unfoldable pub workers : Python → Text → ℕ → ℕ → List WorkerConfig
workers py station_id index zero = []
workers py station_id index (suc count) =
    record { worker_id = station_id ++ (worker_infix ++ py.str_of index); station_id = station_id }
    ∷ workers py station_id (suc index) count

abbrev positive : ℤ → Result ConfigError ℕ
positive (pos zero) = err count_not_positive
positive (pos (suc n)) = ok (suc n)
positive (negsuc n) = err count_not_positive

-- The tests of the count.
abbrev pub count_of : Option ℤ → Result ConfigError ℕ
count_of none = err count_not_integer
count_of (some z) = positive z

-- The two parts of one item.
abbrev pub station_and_count :
    Python → List Text → Option (Text × Text) → Result ConfigError (Text × ℕ)
station_and_count py seen none = err item_format
station_and_count py seen (some (a, b)) =
    let station_id = strip py a in
    if is_empty station_id
    then err station_id_empty
    else if is_seen station_id seen
    then err (duplicate_station_id station_id)
    else elim (count_of (py.int_of (strip py b))) [ ok n ↦ ok (station_id, n) | err e ↦ err e ]

-- An item with no character has no colon either.
unfoldable pub parse_item : Python → List Text → Text → Result ConfigError (Text × ℕ)
parse_item py seen item = station_and_count py seen (cut colon (strip py item))

-- The workers of the items that follow come after those of this one.
abbrev pub join_workers :
    List WorkerConfig
    → Result ConfigError (List WorkerConfig)
    → Result ConfigError (List WorkerConfig)
join_workers ws (ok rest) = ok (ws ++ rest)
join_workers ws (err e) = err e

-- The loop over the items.
unfoldable pub parse_items : Python → List Text → List Text → Result ConfigError (List WorkerConfig)
parse_items py seen [] = ok []
parse_items py seen (item ∷ items) = elim (parse_item py seen item) [
  | err e ↦ err e
  | ok (station_id, count) ↦
      join_workers (workers py station_id 1 count) (parse_items py (station_id ∷ seen) items)
]

unfoldable pub parse_workers_config : Python → Text → Result ConfigError (List WorkerConfig)
parse_workers_config py raw_config =
    if is_empty (strip py raw_config)
    then err config_empty
    else parse_items py [] (split comma raw_config)
