-- ===== src/Editor/Completion.antt =====
-- What completion at the cursor does (`complete` in src/editor.rs).
use ion_win.Base.{
  ◌↔◌, ℕ, zero, suc, ◌+◌, ◌-◌, ◌≤◌, leb, ◌≡◌, refl, sym, ◌∙◌, ap, ◌≢◌, inl, inr, true, false,
  Option, none, some, List, [], ◌∷◌, ◌++◌, Text, ◌==◌, length, drop, All, Bool-cases, arith,
  text_eq, is_empty, drop-append,
}
use ion_win.Base.Chars.{is_whitespace, utf8_len, byte_len}
use ion_win.Editor.Buffer.{◌>>=◌}
use ion_win.Editor.Bounds.{slice-append}
use ion_win.Editor.Complete.{
  complete, complete_word, completed, completion_of, rfind_before, rfind_space, token_start, Word,
  put_before, split_at,
}

rfind_space-none :
    (token : Text) → All (λ c. is_whitespace c ≡ false) token → rfind_space token ≡ none
unfolding rfind_space
rfind_space-none [] h = refl
rfind_space-none (c ∷ token) (h, hs) = ap (rfind_before c) (rfind_space-none token hs) ∙ rw h refl

rfind_space-last :
    (p : Text) (w : ℕ) (token : Text)
    → is_whitespace w ≡ true
    → All (λ c. is_whitespace c ≡ false) token
    → rfind_space (p ++ (w ∷ token)) ≡ some (byte_len p)
unfolding rfind_space byte_len
rfind_space-last [] w token h hs = ap (rfind_before w) (rfind_space-none token hs) ∙ rw h refl
rfind_space-last (c ∷ p) w token h hs = ap (rfind_before c) (rfind_space-last p w token h hs)

utf8_len-positive : (c : ℕ) → 1 ≤ utf8_len c
utf8_len-positive c = ground arith

split_at-cons :
    (at c : ℕ) (text : Text)
    → utf8_len c ≤ at
    → split_at at (c ∷ text) ≡ put_before c (split_at (at - utf8_len c) text)
unfolding split_at
split_at-cons zero c text h = absurd (omega (arith, h, utf8_len-positive c))
split_at-cons (suc at) c text h =
    let inside : leb (utf8_len c) (suc at) ≡ true = ground (arith, h) in rw (split_at, inside) refl

abbrev behind : Text → Option Word → Option Word
behind p none = none
behind p (some w) = some (record { prefix = p ++ w.prefix; token = w.token })

put_before-behind :
    (c : ℕ) (p : Text) (o : Option Word) → put_before c (behind p o) ≡ behind (c ∷ p) o
put_before-behind c p none = refl
put_before-behind c p (some w) = refl

behind-nil : (o : Option Word) → o ≡ behind [] o
behind-nil none = refl
behind-nil (some w) = refl

-- Behind whole characters the text is split as it is without them.
split_at-behind :
    (p s : Text) (at : ℕ) → split_at (byte_len p + at) (p ++ s) ≡ behind p (split_at at s)
unfolding split_at byte_len
split_at-behind [] s at =
    let same : 0 + at ≡ at = omega arith in ap (λ n. split_at n s) same ∙ behind-nil (split_at at s)
split_at-behind (c ∷ p) s at =
    let left : utf8_len c + byte_len p + at - utf8_len c ≡ byte_len p + at = omega arith in
    split_at-cons (utf8_len c + byte_len p + at) c (p ++ s) (omega arith)
    ∙ ap (λ n. put_before c (split_at n (p ++ s))) left
    ∙ ap (put_before c) (split_at-behind p s at)
    ∙ put_before-behind c p (split_at at s)

split_at-narrow :
    (p : Text) (w : ℕ) (token : Text)
    → utf8_len w ≡ 1
    → split_at (byte_len p + 1) (p ++ (w ∷ token))
      ≡ some (record { prefix = p ++ (w ∷ []); token = token })
unfolding split_at
split_at-narrow p w token narrow =
    split_at-behind p (w ∷ token) 1
    ∙ ap (behind p) (
        split_at-cons 1 w token (omega (arith, narrow))
        ∙ ap (λ n. put_before w (split_at (1 - n) token)) narrow)

split_at-wide :
    (p : Text) (w : ℕ) (token : Text)
    → utf8_len w ≢ 1
    → split_at (byte_len p + 1) (p ++ (w ∷ token)) ≡ none
unfolding split_at
split_at-wide p w token wide =
    let long : leb (utf8_len w) 1 ≡ false = ground (arith, wide, utf8_len-positive w) in
    let panics : split_at 1 (w ∷ token) ≡ none = rw (split_at, long) refl in
    split_at-behind p (w ∷ token) 1 ∙ ap (behind p) panics

module _ (names : List Text) (path_matches : Text → List Text) where
  complete-split :
      (p : Text) (w : ℕ) (token suffix : Text)
      → is_whitespace w ≡ true
      → All (λ c. is_whitespace c ≡ false) token
      → complete names path_matches ((p ++ (w ∷ token)) ++ suffix) (length (p ++ (w ∷ token))) ≡ (
          split_at (byte_len p + 1) (p ++ (w ∷ token)) >>= λ v.
          some (complete_word names path_matches v suffix))
  unfolding complete
  complete-split p w token suffix h hs =
      let text : Text = p ++ (w ∷ token) in
      ap
        (λ o. o >>= λ before.
          (split_at (token_start (rfind_space before)) before >>= λ v.
          some (complete_word names path_matches v (drop (length text) (text ++ suffix)))))
        (slice-append text suffix)
      ∙ ap
          (λ i.
            (split_at (token_start i) text >>= λ v.
            some (complete_word names path_matches v (drop (length text) (text ++ suffix)))))
          (rfind_space-last p w token h hs)
      ∙ ap
          (λ after.
            (split_at (byte_len p + 1) text >>= λ v.
            some (complete_word names path_matches v after)))
          (drop-append text suffix)

  complete-narrow :
      (p : Text) (w : ℕ) (token suffix : Text)
      → is_whitespace w ≡ true
      → All (λ c. is_whitespace c ≡ false) token
      → utf8_len w ≡ 1
      → complete names path_matches ((p ++ (w ∷ token)) ++ suffix) (length (p ++ (w ∷ token)))
        ≡ some (
            complete_word names path_matches
              (record { prefix = p ++ (w ∷ []); token = token })
              suffix)
  complete-narrow p w token suffix h hs narrow =
      complete-split p w token suffix h hs
      ∙ ap (λ o. o >>= λ v. some (complete_word names path_matches v suffix))
          (split_at-narrow p w token narrow)

  complete-wide :
      (p : Text) (w : ℕ) (token suffix : Text)
      → is_whitespace w ≡ true
      → All (λ c. is_whitespace c ≡ false) token
      → utf8_len w ≢ 1
      → complete names path_matches ((p ++ (w ∷ token)) ++ suffix) (length (p ++ (w ∷ token)))
        ≡ none
  complete-wide p w token suffix h hs wide =
      complete-split p w token suffix h hs
      ∙ ap (λ o. o >>= λ v. some (complete_word names path_matches v suffix))
          (split_at-wide p w token wide)

abbrev Completed : Option Text → Word → Text → Text → ℕ → Type 0
Completed found v suffix buffer cursor =
    (completion : Text) × (text_eq completion v.token ≡ false)
    × (found ≡ some completion)
    × (buffer ≡ v.prefix ++ (completion ++ suffix))
    × (cursor ≡ length v.prefix + length completion)

completed-some :
    (v : Word) (suffix : Text) (found : Option Text) (buffer : Text) (cursor : ℕ)
    → completed v suffix found ≡ some (buffer, cursor)
    → Completed found v suffix buffer cursor
completed-some v suffix none buffer cursor h = absurd (cc h)
completed-some v suffix (some text) buffer cursor h = elim (Bool-cases (text_eq text v.token)) [
  | inl e ↦ absurd (cc (e, h))
  | inr e ↦
      let whole : v.prefix ++ (text ++ suffix) ≡ buffer = cc (e, h) in
      let place : length v.prefix + length text ≡ cursor = cc (e, h) in
      (text, e, refl, sym whole, sym place)
]

complete_word-some :
    (names : List Text) (path_matches : Text → List Text) (v : Word) (suffix buffer : Text)
    (cursor : ℕ)
    → complete_word names path_matches v suffix ≡ some (buffer, cursor)
    → Completed (completion_of names path_matches v) v suffix buffer cursor
unfolding complete_word
complete_word-some names path_matches v suffix buffer cursor h =
    elim (Bool-cases (is_empty v.token)) [
      | inl f ↦ absurd (cc (f, h))
      | inr f ↦
          completed-some v suffix (completion_of names path_matches v) buffer cursor (cc (f, h))
    ]

-- The word before the cursor stands behind a white space character: completion panics if and only
-- if that character takes more or less than one byte, whatever the completions are.
pub complete-none :
    (names : List Text) (path_matches : Text → List Text) (p : Text) (w : ℕ) (token suffix : Text)
    → is_whitespace w ≡ true
    → All (λ c. is_whitespace c ≡ false) token
    → (complete names path_matches ((p ++ (w ∷ token)) ++ suffix) (length (p ++ (w ∷ token)))
        ≡ none)
      ↔ (utf8_len w ≢ 1)
complete-none names path_matches p w token suffix h hs = (
  λ e narrow. absurd (cc (e, complete-narrow names path_matches p w token suffix h hs narrow)),
  complete-wide names path_matches p w token suffix h hs,
)

-- The word before the cursor stands behind a white space character and completion changes the
-- line: then all that changes is that word, which becomes another text, and the cursor stands
-- behind that text.
pub complete-some :
    (names : List Text) (path_matches : Text → List Text) (p : Text) (w : ℕ)
    (token suffix buffer : Text) (cursor : ℕ)
    → is_whitespace w ≡ true
    → All (λ c. is_whitespace c ≡ false) token
    → complete names path_matches ((p ++ (w ∷ token)) ++ suffix) (length (p ++ (w ∷ token)))
      ≡ some (some (buffer, cursor))
    → (completion : Text) × (text_eq completion token ≡ false)
      × (completion_of names path_matches (record { prefix = p ++ (w ∷ []); token = token })
          ≡ some completion)
      × (buffer ≡ (p ++ (w ∷ [])) ++ (completion ++ suffix))
      × (cursor ≡ length (p ++ (w ∷ [])) + length completion)
complete-some names path_matches p w token suffix buffer cursor h hs e =
    let v : Word = record { prefix = p ++ (w ∷ []); token = token } in
    elim (Bool-cases (utf8_len w == 1)) [
      | inl same ↦
          let narrow : utf8_len w ≡ 1 = ground (arith, same) in
          let word = complete-narrow names path_matches p w token suffix h hs narrow in
          let done : complete_word names path_matches v suffix ≡ some (buffer, cursor) =
            cc (word, e) in
          complete_word-some names path_matches v suffix buffer cursor done
      | inr apart ↦
          let wide : utf8_len w ≢ 1 = λ same. ground (arith, apart, same) in
          absurd (cc (complete-wide names path_matches p w token suffix h hs wide, e))
    ]
