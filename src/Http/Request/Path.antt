-- ===== src/Http/Request/Path.antt =====
-- Percent-encoding as a client does it, and what `setPath` makes of it.
use yvent.Prelude.{
  all_below, all_below_lem, ℕ, ◌+◌, ◌-◌, ◌*◌, ◌/◌, ◌%◌, ◌<◌, ◌≡◌, suc, refl, sym, ap, ◌∙◌, List, [],
  ◌∷◌, ◌++◌, append_assoc, append-nil, Bool, true, false, ltb, ◌==◌, if◌then◌else◌, Option, none,
  some, arith, inl, inr, Bool-cases, ==_iff,
}
use yvent.Http.Request.{HttpRequest, start, hex_value, decode, set_path}

-- How a byte is sent: as it is, or by its two hexadecimal digits, each of them in small letters or in
-- capitals.
pub data Writing : Type 0 where
  as_it_is : Writing
  escaped : (high_small low_small : Bool) → Writing

abbrev pub is_plain : Writing → Bool
is_plain as_it_is = true
is_plain (escaped high_small low_small) = false

abbrev pub hex_digit : Bool → ℕ → ℕ
hex_digit small d = if ltb d 10 then b'0' + d else (if small then b'a' else b'A') + (d - 10)

abbrev pub written : ℕ → Writing → List ℕ → List ℕ
written c as_it_is rest = c ∷ rest
written c (escaped u v) rest = b'%' ∷ hex_digit u (c / 16) ∷ hex_digit v (c % 16) ∷ rest

-- The encoding of a text whose first byte has the number `i`: how a byte is sent is chosen for each
-- place and each byte.
abbrev pub encode : (ℕ → ℕ → Writing) → ℕ → List ℕ → List ℕ
encode choose i [] = []
encode choose i (c ∷ s) = written c (choose i c) (encode choose (suc i) s)

abbrev pub AllBytes : List ℕ → Type 0
AllBytes [] = Unit
AllBytes (c ∷ s) = (c < 256) × AllBytes s

abbrev is_value : Option ℕ → ℕ → Bool
is_value none d = false
is_value (some v) d = v == d

is_value_eq : (o : Option ℕ) (d : ℕ) → is_value o d ≡ true → o ≡ some d
is_value_eq none d h = cc
is_value_eq (some v) d h = ap some ((==_iff v d).0 h)

digit_table : (small : Bool) → all_below 16 (λ d. is_value (hex_value (hex_digit small d)) d) ≡ true
unfolding all_below hex_value
digit_table true = refl
digit_table false = refl

hex_value-hex_digit : (small : Bool) (d : ℕ) → d < 16 → hex_value (hex_digit small d) ≡ some d
hex_value-hex_digit small d h = is_value_eq _ d (all_below_lem 16 _ d h (digit_table small))

decode_escape :
    (stop : ℕ) (path rest : List ℕ) (a b : ℕ) {high low : ℕ}
    → hex_value a ≡ some high
    → hex_value b ≡ some low
    → decode stop start path (b'%' ∷ a ∷ b ∷ rest)
      ≡ decode stop start (path ++ (high * 16 + low) ∷ []) rest
unfolding decode
decode_escape stop path rest a b p q = rw (p, q, decode)

module _ (choose : ℕ → ℕ → Writing) (keeps : (i : ℕ) → is_plain (choose i b'%') ≡ false)
    (stop : ℕ) where
  decode-written :
      (c i : ℕ) (w : Writing) (path rest : List ℕ)
      → choose i c ≡ w
      → c < 256
      → decode stop start path (written c w rest) ≡ decode stop start (path ++ c ∷ []) rest
  unfolding decode
  decode-written c i as_it_is path rest e h = rw not_percent refl
    where
      not_percent : (c == b'%') ≡ false
      not_percent = elim (Bool-cases (c == b'%')) [
        | inl q ↦ cc (ap (λ x. is_plain (choose i x)) ((==_iff c _).0 q), ap is_plain e, keeps i)
        | inr q ↦ q
      ]
  decode-written c i (escaped u v) path rest e h =
      let byte : c / 16 * 16 + c % 16 ≡ c = omega arith in
      decode_escape stop path rest (hex_digit u (c / 16)) (hex_digit v (c % 16))
        (hex_value-hex_digit u (c / 16) (omega arith))
        (hex_value-hex_digit v (c % 16) (omega arith))
      ∙ ap (λ x. decode stop start (path ++ x ∷ []) rest) byte

  decode-encode :
      (i : ℕ) (s path : List ℕ)
      → AllBytes s
      → decode stop start path (encode choose i s) ≡ path ++ s
  unfolding decode
  decode-encode i [] path h = sym (append-nil path)
  decode-encode i (c ∷ s) path h =
      decode-written c i (choose i c) path (encode choose (suc i) s) refl h.0
      ∙ decode-encode (suc i) s (path ++ c ∷ []) h.1
      ∙ append_assoc path (c ∷ []) s

  -- `setPath` gives back every path, whichever of its bytes are sent as they are and whichever by two
  -- hexadecimal digits, in small letters or in capitals, as long as every percent sign is sent by
  -- digits. Only the path of the request changes.
  pub set_path-encode :
      (r : HttpRequest) (s : List ℕ)
      → r.path ≡ []
      → AllBytes s
      → set_path stop r (encode choose 0 s) ≡ record r { path = s }
  unfolding set_path
  set_path-encode r s e h = ap (λ p. record r { path = p }) (rw e (decode-encode 0 s [] h))
