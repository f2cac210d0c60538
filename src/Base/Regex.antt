-- ===== src/Base/Regex.antt =====
-- `re.match` for the patterns of the program: one character of a class or one and more of them, in
-- sequence, and `$` at the end.
use Prim.Native.Char.{Char, code}
use Prim.Native.String.{String, ◌++◌}
use mathlib.Core.Path.{◌≡◌, refl, ap, sym, ◌∙◌}
use mathlib.Core.Bool.{Bool, true, false, ◌&&◌, ◌||◌}
use mathlib.Core.Logic.{◌⊎◌, inl, inr, ◌↔◌}
use mathlib.Core.List.{List, [], ◌∷◌}
use native.Mathlib.Omega.{arith}
use text.Mathlib.TextLemmas.{cons-append, nil-append}
use what_a_secure_app_should.Base.Tests.{◌==◌}
use what_a_secure_app_should.Base.Str.{is_empty}

pub data Item : Type 0 where
  -- `[...]` and `[...]+`
  one plus : (Char → Bool) → Item

-- `$`: at the end, or before a newline at the end.
abbrev pub at_end : String → Bool
at_end String.[] = true
at_end (String.◌∷◌ c s) = is_empty s && (code c == 10)

-- Whether the items match a prefix that `$` follows; `[...]+` tries every length.
unfoldable pub match_items : List Item → String → Bool
match_items [] s = at_end s
match_items (one p ∷ items) String.[] = false
match_items (one p ∷ items) (String.◌∷◌ c s) = p c && match_items items s
match_items (plus p ∷ items) String.[] = false
match_items (plus p ∷ items) (String.◌∷◌ c s) =
    let shortest = match_items items s in
    let longer = match_items (plus p ∷ items) s in p c && (shortest || longer)

-- The words of a class: not empty, every character in it.
abbrev pub IsWord : (Char → Bool) → String → Type 0
IsWord p String.[] = ⊥
IsWord p (String.◌∷◌ c String.[]) = p c ≡ true
IsWord p (String.◌∷◌ c (String.◌∷◌ d s)) = (p c ≡ true) × IsWord p (String.◌∷◌ d s)

-- What a text that matches is made of.
abbrev pub Splits : List Item → String → Type 0
Splits [] s = at_end s ≡ true
Splits (one p ∷ items) s =
    (c : Char) × (rest : String) × (s ≡ String.◌∷◌ c rest) × (p c ≡ true) × Splits items rest
Splits (plus p ∷ items) s =
    (word : String) × (rest : String) × (s ≡ word ++ rest) × IsWord p word × Splits items rest

IsWord-cons :
    (p : Char → Bool) (c : Char) (word : String)
    → p c ≡ true
    → IsWord p word
    → IsWord p (String.◌∷◌ c word)
IsWord-cons p c String.[] h w = absurd w
IsWord-cons p c (String.◌∷◌ d s) h w = (h, w)

and_true : (a b : Bool) → (a && b) ≡ true → (a ≡ true) × (b ≡ true)
and_true a b h = ground arith

or_true : (a b : Bool) → (a || b) ≡ true → (a ≡ true) ⊎ (b ≡ true)
or_true true b h = inl refl
or_true false b h = inr h

single-append : (c : Char) (s : String) → String.◌∷◌ c String.[] ++ s ≡ String.◌∷◌ c s
single-append c s = cons-append c String.[] s ∙ ap (String.◌∷◌ c) (nil-append s)

Splits-of_match : (items : List Item) (s : String) → match_items items s ≡ true → Splits items s
unfolding match_items
Splits-of_match [] s h = h
Splits-of_match (one p ∷ items) String.[] h = absurd (ground arith)
Splits-of_match (one p ∷ items) (String.◌∷◌ c s) h =
    let (first, others) = and_true (p c) (match_items items s) h in
    (c, s, refl, first, Splits-of_match items s others)
Splits-of_match (plus p ∷ items) String.[] h = absurd (ground arith)
Splits-of_match (plus p ∷ items) (String.◌∷◌ c s) h =
    let (first, others) = and_true (p c) _ h in
    elim (or_true (match_items items s) (match_items (plus p ∷ items) s) others) [
      | inl shortest ↦ (
        String.◌∷◌ c String.[],
        s,
        sym (single-append c s),
        first,
        Splits-of_match items s shortest,
      )
      | inr longer ↦
          let (word, rest, e, w, more) = Splits-of_match (plus p ∷ items) s longer in
          (
            String.◌∷◌ c word,
            rest,
            ap (String.◌∷◌ c) e ∙ sym (cons-append c word rest),
            IsWord-cons p c word first w,
            more,
          )
    ]

match-word :
    (p : Char → Bool) (items : List Item) (word rest : String)
    → IsWord p word
    → match_items items rest ≡ true
    → match_items (plus p ∷ items) (word ++ rest) ≡ true
unfolding match_items
match-word p items String.[] rest w h = absurd w
match-word p items (String.◌∷◌ c String.[]) rest w h = rw (single-append c rest, w, h) refl
match-word p items (String.◌∷◌ c (String.◌∷◌ d s)) rest (first, w) h =
    let more = match-word p items (String.◌∷◌ d s) rest w h in
    rw (cons-append c (String.◌∷◌ d s) rest, first, more)
      (or_right (match_items items (String.◌∷◌ d s ++ rest)))
  where
    or_right : (a : Bool) → (a || true) ≡ true
    or_right true = refl
    or_right false = refl

match_of_Splits : (items : List Item) (s : String) → Splits items s → match_items items s ≡ true
unfolding match_items
match_of_Splits [] s h = h
match_of_Splits (one p ∷ items) s (c, rest, e, first, others) =
    rw (e, first, match_of_Splits items rest others) refl
match_of_Splits (plus p ∷ items) s (word, rest, e, w, others) =
    rw e (match-word p items word rest w (match_of_Splits items rest others))

-- The matcher accepts exactly what splits into the items.
pub match_items_iff :
    (items : List Item) (s : String) → (match_items items s ≡ true) ↔ Splits items s
match_items_iff items s = (Splits-of_match items s, match_of_Splits items s)
