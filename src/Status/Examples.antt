-- ===== src/Status/Examples.antt =====
-- The final result of a worker in quick-send mode.
use Prim.Native.Char.{code}
use Prim.Native.String.{String}
use server_unit.Base.{
  ℕ, zero, suc, ◌==◌, if◌then◌else◌, Option, map, ap, done, ◌≡◌, refl, true, false, none, some, [],
  ◌∷◌, Returns,
}
use server_unit.Base.Int.{ℤ, pos, negsuc}
use server_unit.Json.Schema.{packet_stats_schema}
use server_unit.Json.Concrete.{Value, empty, with_field, text, number, values, schemas}
use server_unit.Status.Words.{is_int, has_comma, join_commas, adv_tokenizer-join_commas}
use server_unit.Status.Construct.{new_status_packet-Returns}
use server_unit.Status.{ProcessStatusPacket, words, adv_tokenizer, new_status_packet}

-- Numbers as strokes, which a reader counts.
strokes : ℕ → String
strokes zero = String.[]
strokes (suc n) = String.◌∷◌ "1" (strokes n)

count : String → ℕ
count String.[] = 0
count (String.◌∷◌ c s) = suc (count s)

print : ℤ → String
unfolding strokes
print (pos n) = strokes n
print (negsuc n) = String.◌∷◌ "-" (strokes n)

read : String → Option ℤ
unfolding count
read String.[] = some (pos 0)
read (String.◌∷◌ c s) =
    if code c == b'-' then some (negsuc (count s)) else some (pos (suc (count s)))

count-strokes : (n : ℕ) → count (strokes n) ≡ n
unfolding count strokes
count-strokes zero = refl
count-strokes (suc n) = ap suc (count-strokes n)

read-print : (n : ℤ) → read (print n) ≡ some n
unfolding read print
read-print (pos zero) = refl
read-print (pos (suc n)) = rw (count-strokes n) refl
read-print (negsuc n) = rw (count-strokes n) refl

-- Like `std::stoi` it refuses a number that is no `int`.
stoi : String → Option ℤ
stoi w = elim (read w) [ none ↦ none | some n ↦ if is_int n then some n else none ]

stoi-print : (n : ℤ) → is_int n ≡ true → stoi (print n) ≡ some n
unfolding stoi
stoi-print n i = rw (read-print n, stoi) (rw i refl)

strokes_plain : (n : ℕ) → has_comma (strokes n) ≡ false
unfolding strokes
strokes_plain zero = refl
strokes_plain (suc n) = strokes_plain n

print_plain : (n : ℤ) → has_comma (print n) ≡ false
unfolding print
print_plain (pos n) = strokes_plain n
print_plain (negsuc n) = strokes_plain n

adv_tokenizer-join_commas_example :
    adv_tokenizer stoi (join_commas (print (pos 2)) (map print (negsuc 0 ∷ pos 0 ∷ [])))
    ≡ done (pos 2 ∷ negsuc 0 ∷ pos 0 ∷ [])
adv_tokenizer-join_commas_example =
    adv_tokenizer-join_commas stoi print (pos 2) (negsuc 0 ∷ pos 0 ∷ []) stoi-print print_plain refl
      (refl, (refl, tt))

tokens : words "1,22,,3" ≡ "1" ∷ "22" ∷ "" ∷ "3" ∷ []
unfolding words
tokens = refl

abbrev pub packet : ProcessStatusPacket ℕ
packet = record {
  packet_code = pos 80;
  table_id = "u";
  error_string = "";
  sender_uid = "5";
  stats_present = false;
  queue_time = 0;
  vector_string = "";
  thread_count = pos 0;
}

-- A packet with a body and without statistics.
abbrev pub result_packet : ℕ → Value
result_packet code =
    with_field (with_field (with_field empty "head" (number (pos code))) "id" (text "5")) "body" (
      with_field (with_field (with_field empty "id" (text "u")) "priority" (number (pos 1))) "data"
        (text "1,2"))

new_status_packet-Returns_example :
    Returns
      (λ p.
        (values.get_int (values.at (result_packet 80) "head") ≡ some p.packet_code)
        × (values.get_string (values.at (result_packet 80) "id") ≡ some p.sender_uid)
        × (p.stats_present
            ≡ schemas.validate packet_stats_schema (values.at (result_packet 80) "stats"))
        × ((id text : String)
            → values.get_string (values.at (values.at (result_packet 80) "body") "id") ≡ some id
            → values.get_string (values.at (values.at (result_packet 80) "body") "data") ≡ some text
            → (p.table_id ≡ id) × (p.error_string ≡ text)))
      (new_status_packet values schemas packet (result_packet 80))
new_status_packet-Returns_example =
    new_status_packet-Returns values schemas packet (result_packet 80) refl refl
