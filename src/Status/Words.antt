-- ===== src/Status/Words.antt =====
-- The tokenizer against texts that are joined by commas.
use Prim.Native.Char.{Char, code}
use Prim.Native.String.{String}
use server_unit.Base.{
  ◌≡◌, refl, Bool, true, false, List, [], ◌∷◌, arith, All, ltb, ◌==◌, some, Option, if◌then◌else◌,
  done, map,
}
use server_unit.Base.Int.{ℤ, pos, negsuc}
use server_unit.Status.{words, numbers, adv_tokenizer}

abbrev pub has_comma : String → Bool
has_comma String.[] = false
has_comma (String.◌∷◌ c s) = let rest = has_comma s in if code c == b',' then true else rest

-- `w`, and behind it each word after a comma.
pub join_commas : String → List String → String
join_commas String.[] [] = String.[]
join_commas String.[] (v ∷ vs) = String.◌∷◌ "," (join_commas v vs)
join_commas (String.◌∷◌ c w) vs = String.◌∷◌ c (join_commas w vs)

has_comma-false :
    (c : Char) (w : String)
    → has_comma (String.◌∷◌ c w) ≡ false
    → ((code c == b',') ≡ false) × (has_comma w ≡ false)
has_comma-false c w h = (ground arith, ground arith)

words-join_commas :
    (w : String) (ws : List String)
    → has_comma w ≡ false
    → All (λ v. has_comma v ≡ false) ws
    → words (join_commas w ws) ≡ w ∷ ws
unfolding words join_commas
words-join_commas String.[] [] h hs = refl
words-join_commas String.[] (v ∷ vs) h hs = rw (words-join_commas v vs hs.0 hs.1) refl
words-join_commas (String.◌∷◌ c w) vs h hs =
    let f = has_comma-false c w h in rw (f.0, words) (rw (words-join_commas w vs f.1 hs) refl)

-- The range of `int`.
abbrev pub is_int : ℤ → Bool
is_int (pos n) = ltb n 2147483648
is_int (negsuc n) = ltb n 2147483648

module _ (stoi : String → Option ℤ) (print : ℤ → String) where
  numbers-map :
      (ns : List ℤ)
      → ((n : ℤ) → is_int n ≡ true → stoi (print n) ≡ some n)
      → All (λ n. is_int n ≡ true) ns
      → numbers stoi (map print ns) ≡ done ns
  unfolding numbers
  numbers-map [] read h = refl
  numbers-map (n ∷ ns) read h = rw (read n h.0) (rw (numbers-map ns read h.1) refl)

  no_commas :
      (ns : List ℤ)
      → ((n : ℤ) → has_comma (print n) ≡ false)
      → All (λ v. has_comma v ≡ false) (map print ns)
  no_commas [] h = tt
  no_commas (n ∷ ns) h = (h n, no_commas ns h)

  -- If `std::stoi` reads what `print` writes for a number in the range of `int`, and `print` writes
  -- no comma, the tokenizer gives back any numbers in that range that were written with commas
  -- between them.
  pub adv_tokenizer-join_commas :
      (n : ℤ) (ns : List ℤ)
      → ((n : ℤ) → is_int n ≡ true → stoi (print n) ≡ some n)
      → ((n : ℤ) → has_comma (print n) ≡ false)
      → is_int n ≡ true
      → All (λ n. is_int n ≡ true) ns
      → adv_tokenizer stoi (join_commas (print n) (map print ns)) ≡ done (n ∷ ns)
  unfolding adv_tokenizer
  adv_tokenizer-join_commas n ns read plain h hs =
      rw (words-join_commas (print n) (map print ns) (plain n) (no_commas ns plain))
        (numbers-map (n ∷ ns) read (h, hs))
