-- ===== src/Simulator/Config/RoundTrip.antt =====
-- About the texts that services/station-simulator-service/app/simulator/config_parser.py parses.
use dark_kitchen_simulator.Prelude.{
  ℕ, suc, ◌≡◌, refl, some, List, [], ◌∷◌, ◌++◌, true, false, ◌==◌, All, All-append, arith,
}
use dark_kitchen_simulator.Prelude.Exec.{ok}
use dark_kitchen_simulator.Simulator.Config.{
  Text, pos, Python, WorkerConfig, comma, colon, is_empty, strip_left, strip_right, strip, split,
  cut, is_seen, workers, parse_item, parse_items, parse_workers_config,
}

-- An entry of a configuration: a station and the number of its workers.
pub record Entry : Type 0 where
  pub station_id : Text
  pub workers_after_first : ℕ

abbrev pub print_entry : Python → Entry → Text
print_entry py e = e.station_id ++ (colon ∷ py.str_of (suc e.workers_after_first))

-- The entries, with commas between.
abbrev pub print_entries : Python → Entry → List Entry → Text
print_entries py e [] = print_entry py e
print_entries py e (x ∷ xs) = print_entry py e ++ (comma ∷ print_entries py x xs)

-- What the configuration asks for.
abbrev pub workers_of : Python → List Entry → List WorkerConfig
workers_of py [] = []
workers_of py (e ∷ es) = workers py e.station_id 1 (suc e.workers_after_first) ++ workers_of py es

-- What Python guarantees of numbers in decimal, and of the colon.
pub record Lawful (py : Python) : Type 0 where
  pub colon_no_space : py.is_space colon ≡ false
  pub str_no_space : (n : ℕ) → All (λ c. py.is_space c ≡ false) (py.str_of n)
  pub str_no_comma : (n : ℕ) → All (λ c. (c == comma) ≡ false) (py.str_of n)
  pub int_of_str : (n : ℕ) → py.int_of (py.str_of n) ≡ some (pos n)

-- A name with a character, and neither space nor comma nor colon.
pub record IsName (py : Python) (t : Text) : Type 0 where
  pub not_empty : is_empty t ≡ false
  pub no_space : All (λ c. py.is_space c ≡ false) t
  pub no_comma : All (λ c. (c == comma) ≡ false) t
  pub no_colon : All (λ c. (c == colon) ≡ false) t

-- Names that differ from those seen and from each other.
abbrev pub AllNew : Python → List Text → List Entry → Type 0
AllNew py seen [] = Unit
AllNew py seen (e ∷ es) =
    IsName py e.station_id
    × (is_seen e.station_id seen ≡ false)
    × AllNew py (e.station_id ∷ seen) es

module _ (py : Python) where
  strip_right_id : (t : Text) → All (λ c. py.is_space c ≡ false) t → strip_right py t ≡ t
  unfolding strip_right
  strip_right_id [] h = refl
  strip_right_id (c ∷ cs) h = ground (arith, h.0, strip_right_id cs h.1)

  strip_id : (t : Text) → All (λ c. py.is_space c ≡ false) t → strip py t ≡ t
  unfolding strip_left
  strip_id t h = rw (strip_right_id t h) (left_id t h)
    where
      left_id : (t : Text) → All (λ c. py.is_space c ≡ false) t → strip_left py t ≡ t
      left_id [] h = refl
      left_id (c ∷ cs) h = ground (arith, h.0)

cut_first :
    (c : ℕ) (a b : Text)
    → All (λ x. (x == c) ≡ false) a
    → (c == c) ≡ true
    → cut c (a ++ (c ∷ b)) ≡ some (a, b)
unfolding cut
cut_first c [] b h s = ground (arith, s)
cut_first c (x ∷ xs) b h s = ground (arith, h.0, cut_first c xs b h.1 s)

split_first :
    (c : ℕ) (a b : Text)
    → All (λ x. (x == c) ≡ false) a
    → (c == c) ≡ true
    → split c (a ++ (c ∷ b)) ≡ a ∷ split c b
unfolding split
split_first c [] b h s = ground (arith, s)
split_first c (x ∷ xs) b h s = ground (arith, h.0, split_first c xs b h.1 s)

split_none : (c : ℕ) (a : Text) → All (λ x. (x == c) ≡ false) a → split c a ≡ a ∷ []
unfolding split
split_none c [] h = refl
split_none c (x ∷ xs) h = ground (arith, h.0, split_none c xs h.1)

abbrev texts : Python → List Entry → List Text
texts py [] = []
texts py (e ∷ es) = print_entry py e ∷ texts py es

module _ (py : Python) (lawful : Lawful py) where
  entry_no_space :
      (e : Entry) → IsName py e.station_id → All (λ c. py.is_space c ≡ false) (print_entry py e)
  entry_no_space e name =
      All-append _ e.station_id (colon ∷ py.str_of (suc e.workers_after_first)) name.no_space
        (lawful.colon_no_space, lawful.str_no_space (suc e.workers_after_first))

  entry_no_comma :
      (e : Entry) → IsName py e.station_id → All (λ c. (c == comma) ≡ false) (print_entry py e)
  entry_no_comma e name =
      All-append _ e.station_id (colon ∷ py.str_of (suc e.workers_after_first)) name.no_comma
        (refl, lawful.str_no_comma (suc e.workers_after_first))

  entry_parses :
      (seen : List Text) (e : Entry)
      → IsName py e.station_id
      → is_seen e.station_id seen ≡ false
      → parse_item py seen (print_entry py e) ≡ ok (e.station_id, suc e.workers_after_first)
  unfolding parse_item
  entry_parses seen e name new =
      let n = suc e.workers_after_first in
      rw (
        strip_id py (print_entry py e) (entry_no_space e name),
        cut_first colon e.station_id (py.str_of n) name.no_colon refl,
        strip_id py e.station_id name.no_space,
        strip_id py (py.str_of n) (lawful.str_no_space n),
        name.not_empty,
        new,
        lawful.int_of_str n,
        strip_id py e.station_id name.no_space,
      )

  items_parse :
      (seen : List Text) (es : List Entry)
      → AllNew py seen es
      → parse_items py seen (texts py es) ≡ ok (workers_of py es)
  unfolding parse_items
  items_parse seen [] h = refl
  items_parse seen (e ∷ es) (name, new, rest) =
      ground (arith, entry_parses seen e name new, items_parse (e.station_id ∷ seen) es rest)

  split_entries :
      (seen : List Text) (e : Entry) (es : List Entry)
      → AllNew py seen (e ∷ es)
      → split comma (print_entries py e es) ≡ texts py (e ∷ es)
  split_entries seen e [] (name, new, rest) =
      split_none comma (print_entry py e) (entry_no_comma e name)
  split_entries seen e (x ∷ xs) (name, new, rest) = rw (
    split_first comma (print_entry py e) (print_entries py x xs) (entry_no_comma e name) refl,
    split_entries (e.station_id ∷ seen) x xs rest,
  )

  -- A text whose first character is no space is not blank.
  strip_right_first :
      (c : ℕ) (cs : Text) → py.is_space c ≡ false → is_empty (strip py (c ∷ cs)) ≡ false
  unfolding strip_left strip_right
  strip_right_first c cs h = ground (arith, h)

  name_first :
      (t a b : Text)
      → is_empty t ≡ false
      → All (λ c. py.is_space c ≡ false) t
      → (is_empty (strip py (t ++ a)) ≡ false) × (is_empty (strip py ((t ++ a) ++ b)) ≡ false)
  name_first [] a b h n = absurd (ground arith)
  name_first (c ∷ cs) a b h n = (strip_right_first c _ n.0, strip_right_first c _ n.0)

  not_blank :
      (e : Entry) (es : List Entry)
      → IsName py e.station_id
      → is_empty (strip py (print_entries py e es)) ≡ false
  not_blank e [] name = (name_first e.station_id _ [] name.not_empty name.no_space).0
  not_blank e (x ∷ xs) name = (name_first e.station_id _ _ name.not_empty name.no_space).1

  -- A configuration that is printed from stations and their numbers of workers is parsed as those
  -- workers, in order and numbered from 1, if the stations have different names without spaces, commas
  -- and colons. Of Python it is assumed that `int` reads what `str` writes and that decimal digits and
  -- the colon are no spaces and no commas.
  pub parse_workers_config-print_entries :
      (e : Entry) (es : List Entry)
      → AllNew py [] (e ∷ es)
      → parse_workers_config py (print_entries py e es) ≡ ok (workers_of py (e ∷ es))
  unfolding parse_workers_config
  parse_workers_config-print_entries e es h =
      rw (not_blank e es h.0, split_entries [] e es h) (items_parse [] (e ∷ es) h)
