-- ===== src/Cli/Lines.antt =====
-- The lines that `prompt` of cli/cli.go reads.

use mydis_old.Prelude.{
  ℕ, ◌≡◌, ◌≢◌, refl, ap, ◌∙◌, Bool, true, false, ◌&&◌, not, some, List, [], ◌∷◌, ◌++◌, Bytes, arith,
}
use mydis_old.Auth.Permissions.{is_space, trim_left, trim_right, trim_space, before_space, to_upper}
use mydis_old.Cli.Dispatch.{split_spaces, words_of, read_line}

-- A word has a byte, and no byte of it is white space.
abbrev pub has_no_space : Bytes → Bool
has_no_space [] = true
has_no_space (b ∷ bs) = not (is_space b) && has_no_space bs

abbrev pub is_word : Bytes → Bool
is_word [] = false
is_word (b ∷ bs) = has_no_space (b ∷ bs)

abbrev pub are_words : List Bytes → Bool
are_words [] = true
are_words (w ∷ ws) = is_word w && are_words ws

abbrev pub is_blank : Bytes → Bool
is_blank [] = true
is_blank (b ∷ bs) = is_space b && is_blank bs

-- strings.Join(words, " "), where there is a first word.
abbrev pub join_words : Bytes → List Bytes → Bytes
join_words w [] = w
join_words w (v ∷ vs) = w ++ 32 ∷ join_words v vs

split_spaces-word : (w : Bytes) → has_no_space w ≡ true → split_spaces w ≡ (w, [])
split_spaces-word [] h = refl
split_spaces-word (b ∷ bs) h = ground (arith, split_spaces-word bs)

split_spaces-append :
    (w r : Bytes)
    → has_no_space w ≡ true
    → split_spaces (w ++ 32 ∷ r) ≡ (w, (split_spaces r).0 ∷ (split_spaces r).1)
split_spaces-append [] r h = refl
split_spaces-append (b ∷ bs) r h = ground (arith, split_spaces-append bs r)

no_space_of_word : (w : Bytes) → is_word w ≡ true → has_no_space w ≡ true
no_space_of_word [] h = refl
no_space_of_word (b ∷ bs) h = h

split_spaces-join_words :
    (w : Bytes) (ws : List Bytes)
    → is_word w ≡ true
    → are_words ws ≡ true
    → split_spaces (join_words w ws) ≡ (w, ws)
split_spaces-join_words w [] h hs = split_spaces-word w (no_space_of_word w h)
split_spaces-join_words w (v ∷ vs) h hs =
    split_spaces-append w (join_words v vs) (no_space_of_word w h)
    ∙ rw (split_spaces-join_words v vs (ground arith) (ground arith)) refl

trim_left-blank : (a s : Bytes) → is_blank a ≡ true → trim_left (a ++ s) ≡ trim_left s
trim_left-blank [] s h = refl
trim_left-blank (b ∷ bs) s h = ground (arith, trim_left-blank bs s)

trim_left-join_words :
    (w : Bytes) (ws : List Bytes) (z : Bytes)
    → is_word w ≡ true
    → trim_left (join_words w ws ++ z) ≡ join_words w ws ++ z
trim_left-join_words [] ws z h = absurd (cc)
trim_left-join_words (b ∷ bs) [] z h = ground arith
trim_left-join_words (b ∷ bs) (v ∷ vs) z h = ground arith

trim_right-blank : (z : Bytes) → is_blank z ≡ true → trim_right z ≡ []
trim_right-blank [] h = refl
trim_right-blank (b ∷ bs) h = rw (trim_right-blank bs (ground arith)) (ground arith)

trim_right-append : (s z : Bytes) → is_blank z ≡ true → trim_right (s ++ z) ≡ trim_right s
trim_right-append [] z h = trim_right-blank z h
trim_right-append (b ∷ bs) z h = ap (before_space b) (trim_right-append bs z h)

trim_right-word : (w : Bytes) → is_word w ≡ true → trim_right w ≡ w
trim_right-word [] h = refl
trim_right-word (b ∷ []) h = ground arith
trim_right-word (b ∷ c ∷ bs) h = rw (trim_right-word (c ∷ bs) (ground arith)) refl

-- What stays before something that stays.
trim_right-before :
    (w : Bytes) (b : ℕ) (s : Bytes)
    → trim_right s ≡ s
    → s ≢ []
    → trim_right (w ++ b ∷ s) ≡ w ++ b ∷ s
trim_right-before [] b [] e n = absurd (n refl)
trim_right-before [] b (c ∷ s) e n = rw e refl
trim_right-before (a ∷ []) b s e n = rw (trim_right-before [] b s e n) refl
trim_right-before (a ∷ c ∷ w) b s e n = rw (trim_right-before (c ∷ w) b s e n) refl

join_words-ne-nil : (w : Bytes) (ws : List Bytes) → is_word w ≡ true → join_words w ws ≢ []
join_words-ne-nil [] ws h e = absurd (cc)
join_words-ne-nil (b ∷ bs) [] h e = absurd (cc)
join_words-ne-nil (b ∷ bs) (v ∷ vs) h e = absurd (cc)

trim_right-join_words :
    (w : Bytes) (ws : List Bytes)
    → is_word w ≡ true
    → are_words ws ≡ true
    → trim_right (join_words w ws) ≡ join_words w ws
trim_right-join_words w [] h hs = trim_right-word w h
trim_right-join_words w (v ∷ vs) h hs =
    trim_right-before w 32 (join_words v vs)
      (trim_right-join_words v vs (ground arith) (ground arith))
      (join_words-ne-nil v vs (ground arith))

trim_space-join_words :
    (a w : Bytes) (ws : List Bytes) (z : Bytes)
    → is_blank a ≡ true
    → is_word w ≡ true
    → are_words ws ≡ true
    → is_blank z ≡ true
    → trim_space (a ++ (join_words w ws ++ z)) ≡ join_words w ws
trim_space-join_words a w ws z ha h hs hz =
    ap trim_right (trim_left-blank a (join_words w ws ++ z) ha)
    ∙ ap trim_right (trim_left-join_words w ws z h)
    ∙ trim_right-append (join_words w ws) z hz
    ∙ trim_right-join_words w ws h hs

words_of_lem :
    (t : Bytes) → t ≢ [] → words_of t ≡ some (to_upper (split_spaces t).0, (split_spaces t).1)
words_of_lem [] n = absurd (n refl)
words_of_lem (b ∷ bs) n = refl

-- A line of words, each of at least one byte and without white space, joined by single spaces, with
-- any white space before and behind, is read by the prompt as the first word in capitals and the
-- other words as its arguments.
pub read_line-join_words :
    (a w : Bytes) (ws : List Bytes) (z : Bytes)
    → is_blank a ≡ true
    → is_word w ≡ true
    → are_words ws ≡ true
    → is_blank z ≡ true
    → read_line (a ++ (join_words w ws ++ z)) ≡ some (to_upper w, ws)
unfolding read_line
read_line-join_words a w ws z ha h hs hz =
    ap words_of (trim_space-join_words a w ws z ha h hs hz)
    ∙ words_of_lem (join_words w ws) (join_words-ne-nil w ws h)
    ∙ rw (split_spaces-join_words w ws h hs) refl
