-- ===== src/Value/JsonTests.antt =====
-- Numbers that are integers, and the theorems at some JSON with them.
use flow_backend.Prelude.{ℕ, ◌≡◌, refl, Option, none, some, str, ap, sym, some_inj}
use flow_backend.Prelude.Int.{ℤ, pos, negsuc}
use flow_backend.Value.{Value, Values, Map}
use flow_backend.Value.Normalize.{DecimalOps, normalize}
use flow_backend.Value.Meaning.{IsNormal, normalize-IsNormal}
use flow_backend.Value.Json.{Json, Items, NumberOps, from_json, to_json}
use flow_backend.Value.Json.RoundTrip.{AreExact, to_json-from_json}

abbrev u64_of : ℤ → Option ℕ
u64_of (pos n) = some n
u64_of (negsuc n) = none

abbrev i64_of : ℤ → Option ℤ
i64_of (pos n) = none
i64_of (negsuc n) = some (negsuc n)

abbrev integers : NumberOps ℤ
integers = record {
  as_u64 = u64_of;
  as_i64 = i64_of;
  to_text = λ n. str "";
  of_u64 = pos;
  of_i64 = λ i. i;
  of_f64 = λ f. none;
  parse_u128 = λ s. none;
  parse_i128 = λ s. none;
  parse_decimal = λ s. none;
  from_scientific = λ s. none;
  parse_f64 = λ s. none;
  u128_as_f64 = λ n. n;
  i128_as_f64 = λ i. 0;
  normalize_assign = λ d. d;
  decimal_to_u64 = λ d. none;
  decimal_to_i64 = λ d. none;
  decimal_to_f64 = λ d. none;
}

of_as_u64 : (m : ℤ) (n : ℕ) → u64_of m ≡ some n → pos n ≡ m
of_as_u64 (pos k) n h = ap pos (sym (some_inj h))
of_as_u64 (negsuc k) n h = absurd (cc h)

of_as_i64 :
    (m i : ℤ) → u64_of m ≡ none → i64_of m ≡ some i → (n : ℕ) × (i ≡ negsuc n) × (negsuc n ≡ m)
of_as_i64 (pos k) i e h = absurd (cc e)
of_as_i64 (negsuc k) i e h = (k, sym (some_inj h), refl)

integers-AreExact : AreExact integers
integers-AreExact = record {
  as_of_u64 = λ n h. refl;
  as_of_i64 = λ n h. (refl, refl);
  of_as_u64 = of_as_u64;
  of_as_i64 = of_as_i64;
}

abbrev plain : Value
plain = Value.map (
    Map.entry (str "a")
      (Value.array (Values.cons (Value.u64 5) (Values.cons (Value.i64 (negsuc 6)) Values.nil)))
      Map.empty)

abbrev document : Json ℤ
document =
    Json.array (Items.cons (Json.number (pos 5)) (Items.cons (Json.number (negsuc 2)) Items.nil))

to_json-from_json_example :
    (from_json integers (to_json integers plain) ≡ plain)
    × (to_json integers (from_json integers document) ≡ document)
to_json-from_json_example =
    to_json-from_json integers integers-AreExact plain ((refl, (refl, tt)), tt) document
      (λ e. absurd (cc e), (λ e. (negsuc 2, refl), tt))

-- Every decimal is 7.
abbrev sevens : DecimalOps
sevens = record { normalize_assign = λ d. d; to_i128 = λ d. some (pos 7) }

abbrev whole : Value
whole = Value.array (
    Values.cons (Value.u128 7)
      (Values.cons (Value.decimal (record { mantissa = pos 7; scale = 0 })) Values.nil))

abbrev whole_small : Value
whole_small = Value.array (Values.cons (Value.u64 7) (Values.cons (Value.u64 7) Values.nil))

normal_whole : normalize sevens whole ≡ some whole_small
unfolding normalize
normal_whole = refl

normalize-IsNormal_example : IsNormal sevens whole whole_small
normalize-IsNormal_example = normalize-IsNormal sevens whole whole_small normal_whole
