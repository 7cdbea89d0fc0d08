-- ===== src/Validator/Tokens.antt =====
-- The tokens of a line of user input.
use mathlib.Core.List.{append-nil, append_assoc}
use quant_feed_handler.Base.{List, [], ◌∷◌, ◌++◌, true, false, ◌≡◌, refl, sym, ap, ◌∙◌, map}
use quant_feed_handler.Validator.Line.{Text, is_separator, is_empty, flush, tokenize}

-- No byte of the text separates tokens.
abbrev pub IsPlain : Text → Type 0
IsPlain [] = Unit
IsPlain (c ∷ cs) = (is_separator c ≡ false) × IsPlain cs

abbrev pub IsToken : Text → Type 0
IsToken t = (is_empty t ≡ false) × IsPlain t

abbrev pub AreTokens : List Text → Type 0
AreTokens [] = Unit
AreTokens (t ∷ ts) = IsToken t × AreTokens ts

abbrev pub AreSeparators : Text → Type 0
AreSeparators [] = Unit
AreSeparators (c ∷ cs) = (is_separator c ≡ true) × AreSeparators cs

-- Tokens with the text that follows each of them.
abbrev pub spaced : List (Text × Text) → Text
spaced [] = []
spaced ((t, gap) ∷ ps) = t ++ (gap ++ spaced ps)

-- Separators follow every token, at least one where another token comes; at the end of the line
-- there may be none.
abbrev pub IsSpaced : List (Text × Text) → Type 0
IsSpaced [] = Unit
IsSpaced ((t, gap) ∷ []) = IsToken t × AreSeparators gap
IsSpaced ((t, gap) ∷ p ∷ ps) =
    IsToken t × AreSeparators gap × (is_empty gap ≡ false) × IsSpaced (p ∷ ps)

abbrev pub tokens_of : List (Text × Text) → List Text
tokens_of ps = map (λ (p : Text × Text). p.0) ps

tokenize-plain :
    (t rest current : Text) (tokens : List Text)
    → IsPlain t
    → tokenize tokens current (t ++ rest) ≡ tokenize tokens (current ++ t) rest
unfolding tokenize
tokenize-plain [] rest current tokens h =
    ap (λ l. tokenize tokens l rest) (sym (append-nil current))
tokenize-plain (c ∷ cs) rest current tokens h = rw (h.0) (
    tokenize-plain cs rest (current ++ c ∷ []) tokens h.1
    ∙ ap (λ l. tokenize tokens l rest) (append_assoc current (c ∷ []) cs))

flush-token :
    (tokens : List Text) (t : Text) → is_empty t ≡ false → flush tokens t ≡ tokens ++ t ∷ []
flush-token tokens t h = rw h

-- Separators with no token before them are skipped.
tokenize-separators :
    (gap rest : Text) (tokens : List Text)
    → AreSeparators gap
    → tokenize tokens [] (gap ++ rest) ≡ tokenize tokens [] rest
unfolding tokenize
tokenize-separators [] rest tokens h = refl
tokenize-separators (c ∷ gap) rest tokens h = rw h.0 (tokenize-separators gap rest tokens h.1)

-- The first of several separators ends the token.
tokenize-gap :
    (t gap rest : Text) (tokens : List Text)
    → IsToken t
    → AreSeparators gap
    → is_empty gap ≡ false
    → tokenize tokens t (gap ++ rest) ≡ tokenize (tokens ++ t ∷ []) [] rest
unfolding tokenize
tokenize-gap t [] rest tokens token h some_gap = absurd (cc some_gap)
tokenize-gap t (c ∷ gap) rest tokens token h some_gap =
    rw (h.0, flush-token tokens t token.0) (tokenize-separators gap rest (tokens ++ t ∷ []) h.1)

-- The end of the line ends the last token, be it after separators or at once.
tokenize-last :
    (t gap : Text) (tokens : List Text)
    → IsToken t
    → AreSeparators gap
    → tokenize tokens t (gap ++ []) ≡ tokens ++ t ∷ []
unfolding tokenize
tokenize-last t [] tokens token h = flush-token tokens t token.0
tokenize-last t (c ∷ gap) tokens token h = tokenize-gap t (c ∷ gap) [] tokens token h refl

tokenize_from-spaced :
    (ps : List (Text × Text)) (tokens : List Text)
    → IsSpaced ps
    → tokenize tokens [] (spaced ps) ≡ tokens ++ tokens_of ps
unfolding tokenize
tokenize_from-spaced [] tokens h = sym (append-nil tokens)
tokenize_from-spaced ((t, gap) ∷ []) tokens h =
    tokenize-plain t (gap ++ spaced []) [] tokens h.0.1 ∙ tokenize-last t gap tokens h.0 h.1
tokenize_from-spaced ((t, gap) ∷ p ∷ ps) tokens h =
    tokenize-plain t (gap ++ spaced (p ∷ ps)) [] tokens h.0.1
    ∙ tokenize-gap t gap (spaced (p ∷ ps)) tokens h.0 h.1 h.2
    ∙ tokenize_from-spaced (p ∷ ps) (tokens ++ t ∷ []) h.3
    ∙ append_assoc tokens (t ∷ []) (tokens_of (p ∷ ps))

-- The tokens of a line are its maximal runs of bytes that do not separate: a line of separators, then
-- of texts that are not empty and hold no separator, with one or more separators between any
-- two and any number of them, or none, at the end, gives exactly these texts in order.
pub tokenize-spaced :
    (lead : Text) (ps : List (Text × Text))
    → AreSeparators lead
    → IsSpaced ps
    → tokenize [] [] (lead ++ spaced ps) ≡ tokens_of ps
tokenize-spaced lead ps h spacing =
    tokenize-separators lead (spaced ps) [] h ∙ tokenize_from-spaced ps [] spacing
