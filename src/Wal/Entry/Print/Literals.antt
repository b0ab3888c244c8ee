-- ===== src/Wal/Entry/Print/Literals.antt =====
-- The text literals of wal/entry.rs, read back by the rule that executor/mariadb.rs follows: a quote
-- inside the literal is doubled, and a backslash takes the next character with it. What an escaped
-- character stands for is an argument.
use Prim.Native.Char.{Char, code}
use Prim.Native.String.{◌++◌}
use text.Mathlib.TextLemmas.{append_assoc, cons-append, nil-append}
use text.Mathlib.TextEquality.{Char-path}
use wolf_scale.Base.{
  ℕ, String, ◌≡◌, ◌≢◌, refl, ap, ◌∙◌, true, false, Option, none, some, arith, inl, inr, ◌==◌,
  ==_iff, if◌then◌else◌, Bool-cases,
}
use wolf_scale.Wal.Entry.{string}
use wolf_scale.Wal.Entry.Print.{escape, value_to_sql}

abbrev quote_code : ℕ
quote_code = 39

abbrev push : Char → Option (String × String) → Option (String × String)
push c none = none
push c (some (s, rest)) = some (String.◌∷◌ c s, rest)

abbrev backslash_code : ℕ
backslash_code = 92

-- Where the reader is: inside the literal, behind a quote in it or behind a backslash
pub data Place : Type 0 where
  inside behind_quote behind_backslash : Place

module _ (escaped : Char → Char) where
  -- Reads from behind the opening quote. What comes back is the text of the literal and what stands
  -- behind it.
  unfoldable pub read_literal : Place → String → Option (String × String)
  read_literal inside String.[] = none
  read_literal inside (String.◌∷◌ c s) = elim (code c == quote_code) [
    | true ↦ read_literal behind_quote s
    | false ↦ elim (code c == backslash_code) [
      | true ↦ read_literal behind_backslash s
      | false ↦ push c (read_literal inside s)
    ]
  ]
  read_literal behind_quote String.[] = some ("", "")
  read_literal behind_quote (String.◌∷◌ c s) = elim (code c == quote_code) [
    | true ↦ push c (read_literal inside s)
    | false ↦ some ("", String.◌∷◌ c s)
  ]
  read_literal behind_backslash String.[] = none
  read_literal behind_backslash (String.◌∷◌ c s) = push (escaped c) (read_literal inside s)

-- `rest` goes on with something else than a quote.
abbrev pub NoQuote : String → Type 0
NoQuote String.[] = Unit {0}
NoQuote (String.◌∷◌ c s) = code c ≢ quote_code

-- No character of the text is a backslash.
abbrev pub NoBackslash : String → Type 0
NoBackslash String.[] = Unit {0}
NoBackslash (String.◌∷◌ c s) = (code c ≢ backslash_code) × NoBackslash s

abbrev quote : Char
quote = "'"

quote-append : (t : String) → "'" ++ t ≡ String.◌∷◌ quote t
quote-append t = cons-append quote String.[] t ∙ ap (String.◌∷◌ quote) (nil-append t)

two_quotes-append : (t : String) → "''" ++ t ≡ String.◌∷◌ quote (String.◌∷◌ quote t)
two_quotes-append t = cons-append quote "'" t ∙ ap (String.◌∷◌ quote) (quote-append t)

module _ (escaped : Char → Char) where
  read_closed :
      (rest : String) → NoQuote rest → read_literal escaped behind_quote rest ≡ some ("", rest)
  unfolding read_literal
  read_closed String.[] h = refl
  read_closed (String.◌∷◌ c s) h = ground (arith, h)

  read_plain :
      (c : Char) (t : String)
      → (code c == quote_code) ≡ false
      → code c ≢ backslash_code
      → read_literal escaped inside (String.◌∷◌ c t) ≡ push c (read_literal escaped inside t)
  unfolding read_literal
  read_plain c t p b = ground (arith, b)

  read_escaped :
      (s rest : String)
      → NoBackslash s
      → NoQuote rest
      → read_literal escaped inside (escape s ++ ("'" ++ rest)) ≡ some (s, rest)
  unfolding escape read_literal
  read_escaped String.[] rest n h = rw (nil-append, quote-append) (read_closed rest h)
  read_escaped (String.◌∷◌ c s) rest (b, n) h = elim (Bool-cases (code c == quote_code)) [
    | inl q ↦
        rw (q, two_quotes-append, cons-append, cons-append)
          (rw (read_escaped s rest n h) (rw (Char-path c quote ((==_iff _ _).0 q))))
    | inr p ↦
        rw (p, cons-append, read_plain c (escape s ++ ("'" ++ rest)) p b, read_escaped s rest n h)
  ]

  -- Reads a literal from its opening quote on.
  unfoldable pub read_text : String → Option (String × String)
  read_text String.[] = none
  read_text (String.◌∷◌ c s) = if code c == quote_code then read_literal escaped inside s else none

  -- The SQL of a text value without a backslash, followed by anything but a quote, is read back as
  -- that text, and nothing behind it is taken, where a doubled quote is a quote and a backslash takes
  -- the next character with it, whatever an escaped character stands for.
  pub read_text-value_to_sql :
      (s rest : String)
      → NoBackslash s
      → NoQuote rest
      → read_text (value_to_sql (string s) ++ rest) ≡ some (s, rest)
  unfolding value_to_sql read_text
  read_text-value_to_sql s rest n h =
      rw (quote-append, cons-append, append_assoc) (read_escaped s rest n h)
