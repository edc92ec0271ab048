-- ===== src/Pointer/RoundTrip.antt =====
-- A pointer that was written is read back as the keys it was written for.
use Prim.Native.Char.{Char, code}
use Prim.Native.String.{◌++◌ as text_append}
use text.Mathlib.TextLemmas.{cons-append, nil-append}
use text.Mathlib.TextEquality.{Char-path}
use skill2workflow.Prelude.{
  ℕ, String, ◌≡◌, refl, ◌∙◌, Bool, true, false, not, ◌&&◌, List, [], ◌∷◌, map, arith, eqb, inl, inr,
  Bool-cases,
}
use skill2workflow.Texts.{split_at}
use skill2workflow.Json.{Json}
use skill2workflow.Pointer.{
  escape_tilde, escape_slash, escape, join, json_pointer, replace_pair, unescape, tail, tokens,
  walk, resolve,
}

-- A character that is not `~` starts no pair.
replace_pair-plain :
    (digit : ℕ) (by c : Char) (text : String)
    → eqb (code c) b'~' ≡ false
    → replace_pair digit by (String.◌∷◌ c text) ≡ String.◌∷◌ c (replace_pair digit by text)
unfolding replace_pair
replace_pair-plain digit by c String.[] h = refl
replace_pair-plain digit by c (String.◌∷◌ d text) h = rw h refl

code-eq : (c d : Char) → eqb (code c) (code d) ≡ true → c ≡ d
code-eq c d h = Char-path c d (ground arith)

unescape_tilde-escape : (text : String) → replace_pair b'0' "~" (escape_tilde text) ≡ text
unfolding escape_tilde replace_pair
unescape_tilde-escape String.[] = refl
unescape_tilde-escape (String.◌∷◌ c text) =
    let ih = unescape_tilde-escape text in
    elim (Bool-cases (eqb (code c) b'~')) [
      | inl p ↦ rw (p, escape_tilde, ih, code-eq c "~" p) refl
      | inr p ↦
          rw (p, escape_tilde) (replace_pair-plain b'0' "~" c (escape_tilde text) p ∙ rw ih refl)
    ]

unescape_slash-escape :
    (text : String) → replace_pair b'1' "/" (escape_slash (escape_tilde text)) ≡ escape_tilde text
unfolding escape_tilde escape_slash replace_pair
unescape_slash-escape String.[] = refl
unescape_slash-escape (String.◌∷◌ c text) =
    let ih = unescape_slash-escape text in
    let rest = escape_slash (escape_tilde text) in
    elim (Bool-cases (eqb (code c) b'~')) [
      | inl p ↦ rw (p, escape_tilde, replace_pair-plain b'1' "/" "0" rest refl, ih) refl
      | inr p ↦ elim (Bool-cases (eqb (code c) b'/')) [
        | inl q ↦ rw (p, q, escape_tilde, ih, code-eq c "/" q) refl
        | inr q ↦ rw (p, q, escape_tilde) (replace_pair-plain b'1' "/" c rest p ∙ rw ih refl)
      ]
    ]

pub unescape-escape : (text : String) → unescape (escape text) ≡ text
unfolding unescape escape
unescape-escape text = rw (unescape_slash-escape text) (unescape_tilde-escape text)

-- A text without `/`.
unfoldable no_slash : String → Bool
no_slash String.[] = true
no_slash (String.◌∷◌ c text) = not (eqb (code c) b'/') && no_slash text

escape-no_slash : (text : String) → no_slash (escape_slash text) ≡ true
unfolding escape_slash no_slash
escape-no_slash String.[] = refl
escape-no_slash (String.◌∷◌ c text) =
    let ih = escape-no_slash text in
    elim (Bool-cases (eqb (code c) b'/')) [
      | inl p ↦ rw (p, escape_slash, ih) refl
      | inr p ↦ rw (p, escape_slash) (rw (p, no_slash, ih) refl)
    ]

split_at-some :
    (c : ℕ) (text : String) → (w : String) × (words : List String) × (split_at c text ≡ w ∷ words)
unfolding split_at
split_at-some c String.[] = ("", [], refl)
split_at-some c (String.◌∷◌ d text) =
    let (w, words, e) = split_at-some c text in
    elim (Bool-cases (eqb (code d) c)) [
      | inl p ↦ ("", w ∷ words, rw (e, split_at) (rw p refl))
      | inr p ↦ (String.◌∷◌ d w, words, rw (e, split_at) (rw p refl))
    ]

split_at-plain : (text : String) → no_slash text ≡ true → split_at b'/' text ≡ text ∷ []
unfolding split_at no_slash
split_at-plain String.[] h = refl
split_at-plain (String.◌∷◌ c text) h =
    let ih = split_at-plain text (ground arith) in
    let p : eqb (code c) b'/' ≡ false = ground arith in rw (ih, split_at) (rw p refl)

split_at-append :
    (text rest : String)
    → no_slash text ≡ true
    → split_at b'/' (text_append text (String.◌∷◌ "/" rest)) ≡ text ∷ split_at b'/' rest
unfolding split_at no_slash
split_at-append String.[] rest h =
    let (w, words, e) = split_at-some b'/' rest in rw (nil-append, e, split_at) refl
split_at-append (String.◌∷◌ c text) rest h =
    let ih = split_at-append text rest (ground arith) in
    let p : eqb (code c) b'/' ≡ false = ground arith in
    rw (cons-append c text (String.◌∷◌ "/" rest), ih, split_at) (rw p refl)

split_at-join :
    (p : String) (parts : List String)
    → split_at b'/' (join (map escape (p ∷ parts))) ≡ map escape (p ∷ parts)
unfolding join escape
split_at-join p [] = split_at-plain (escape p) (escape-no_slash (escape_tilde p))
split_at-join p (q ∷ parts) =
    split_at-append (escape p) (join (map escape (q ∷ parts))) (escape-no_slash (escape_tilde p))
    ∙ rw (split_at-join q parts) refl

map-unescape : (parts : List String) → map unescape (map escape parts) ≡ parts
map-unescape [] = refl
map-unescape (p ∷ parts) = rw (unescape-escape p, map-unescape parts) refl

-- The tokens of a pointer that was written for some parts, at least one, are those parts.
pub tokens-json_pointer :
    (p : String) (parts : List String) → tokens (json_pointer (p ∷ parts)) ≡ p ∷ parts
unfolding tokens json_pointer split_at tail
tokens-json_pointer p parts = rw (split_at-join p parts) (map-unescape (p ∷ parts))

-- An assertion on the pointer that is written for some parts, at least one, asks for what is found in
-- the document by going through those parts.
pub resolve-json_pointer :
    (p : String) (parts : List String) (document : Json)
    → resolve (json_pointer (p ∷ parts)) document ≡ walk (p ∷ parts) document
unfolding resolve
resolve-json_pointer p parts document = rw (tokens-json_pointer p parts) refl
