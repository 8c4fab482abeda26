-- ===== src/Typed/Trust.antt =====
-- When the tracker claims a command, and when it must not.
use sessionhub.Base.{
  ℕ, ◌+◌, ◌≤◌, ◌<◌, ◌≡◌, ◌≢◌, ◌∙◌, refl, sym, ap, true, false, List, [], ◌∷◌, ◌++◌, length, take,
  arith, length-append, All, append_assoc, append-nil,
}
use sessionhub.Utf8.{trim, from_utf8_lossy}
use sessionhub.Utf8.Laws.{from_utf8_lossy-ascii}
use sessionhub.Typed.{
  TypedLine, max_line, max_command, after_esc, in_sequence, end_sequence, in_osc, enter, ordinary,
  plain, byte, feed,
}

-- A byte that is neither Enter nor one of the keys that throw the line away.
abbrev pub Keeps : ℕ → Type 0
Keeps b = (b ≢ b'\r') × (b ≢ b'\n') × (b ≢ 0x03) × (b ≢ 0x15) × (b ≢ 0x17)

end_sequence-dirty : (t : TypedLine) → t.dirty ≡ true → (end_sequence t).dirty ≡ true
unfolding end_sequence
end_sequence-dirty t h = ground arith

in_sequence-dirty : (t : TypedLine) (b : ℕ) → t.dirty ≡ true → (in_sequence t b).dirty ≡ true
unfolding in_sequence
in_sequence-dirty t b h =
    ground (arith, end_sequence-dirty (record t { esc = 0; seq = t.seq ++ b ∷ [] }))

plain-dirty : (t : TypedLine) (b : ℕ) → Keeps b → t.dirty ≡ true → (plain t b).dirty ≡ true
unfolding plain ordinary
plain-dirty t b k h = ground arith

byte-dirty : (t : TypedLine) (b : ℕ) → Keeps b → t.dirty ≡ true → (byte t b).dirty ≡ true
unfolding byte after_esc in_osc
byte-dirty t b k h = ground (arith, in_sequence-dirty t b h, plain-dirty t b k h)

-- Once something happened that the shell handled out of sight, the line stays untrusted until
-- Enter, Ctrl-C, Ctrl-U or Ctrl-W, whatever else is typed, pasted or reported in between.
pub feed-dirty :
    (bs : List ℕ) (t : TypedLine) → All Keeps bs → t.dirty ≡ true → (feed t bs).dirty ≡ true
unfolding feed
feed-dirty [] t k h = h
feed-dirty (b ∷ bs) t (kb, ks) h = feed-dirty bs (byte t b) ks (byte-dirty t b kb h)

feed-append : (xs ys : List ℕ) (t : TypedLine) → feed t (xs ++ ys) ≡ feed (feed t xs) ys
unfolding feed
feed-append [] ys t = refl
feed-append (x ∷ xs) ys t = feed-append xs ys (byte t x)

enter_untrusted :
    (t : TypedLine) → t.dirty ≡ true → t.esc ≡ 0 → t.pasting ≡ false → (byte t b'\r').last ≡ []
unfolding byte plain enter
enter_untrusted t d e p = rw (e, p, d)

-- On a line that is untrusted, after any bytes but Enter (`\r` or `\n`), Ctrl-C, Ctrl-U and Ctrl-W,
-- Enter outside of a sequence and of a paste claims no command at all, not even an older one.
pub feed-untrusted :
    (bs : List ℕ) (t : TypedLine)
    → All Keeps bs
    → t.dirty ≡ true
    → (feed t bs).esc ≡ 0
    → (feed t bs).pasting ≡ false
    → (feed t (bs ++ b'\r' ∷ [])).last ≡ []
unfolding feed
feed-untrusted bs t k h e p =
    ap (λ s. s.last) (feed-append bs (b'\r' ∷ []) t)
    ∙ enter_untrusted (feed t bs) (feed-dirty bs t k h) e p

end_sequence-last : (t : TypedLine) → (end_sequence t).last ≡ t.last
unfolding end_sequence
end_sequence-last t = ground arith

in_sequence-last : (t : TypedLine) (b : ℕ) → (in_sequence t b).last ≡ t.last
unfolding in_sequence
in_sequence-last t b =
    ground (arith, end_sequence-last (record t { esc = 0; seq = t.seq ++ b ∷ [] }))

byte-last : (t : TypedLine) (b : ℕ) → b ≢ b'\r' → b ≢ b'\n' → (byte t b).last ≡ t.last
unfolding byte after_esc in_osc plain ordinary
byte-last t b r n = ground (arith, in_sequence-last t b)

-- Nothing but Enter changes the command that is claimed.
pub feed-last :
    (bs : List ℕ) (t : TypedLine)
    → All (λ b. (b ≢ b'\r') × (b ≢ b'\n')) bs
    → (feed t bs).last ≡ t.last
unfolding feed
feed-last [] t k = refl
feed-last (b ∷ bs) t (kb, ks) = feed-last bs (byte t b) ks ∙ byte-last t b kb.0 kb.1

abbrev pub Printable : ℕ → Type 0
Printable b = (0x20 ≤ b) × (b < 0x7f)

byte-Printable :
    (t : TypedLine) (b : ℕ)
    → Printable b
    → t.esc ≡ 0
    → length t.line < max_line
    → byte t b ≡ record t { line = t.line ++ b ∷ [] }
unfolding byte plain ordinary
byte-Printable t b p e short = ground arith

feed-Printable :
    (bs : List ℕ) (t : TypedLine)
    → All Printable bs
    → t.esc ≡ 0
    → length t.line + length bs ≤ max_line
    → feed t bs ≡ record t { line = t.line ++ bs }
unfolding feed
feed-Printable [] t p e short = ap (λ l. record t { line = l }) (sym (append-nil t.line))
feed-Printable (b ∷ bs) t (pb, ps) e short =
    ap (λ s. feed s bs) (byte-Printable t b pb e (omega arith))
    ∙ feed-Printable bs (record t { line = t.line ++ b ∷ [] }) ps e
        (omega (arith, length-append t.line (b ∷ [])))
    ∙ ap (λ l. record t { line = l }) (append_assoc t.line (b ∷ []) bs)

ascii : (bs : List ℕ) → All Printable bs → All (λ b. b < 0x80) bs
ascii [] p = tt
ascii (b ∷ bs) (pb, ps) = (omega arith, ascii bs ps)

-- What Enter makes of a line and the command claimed before.
abbrev pub claimed : List ℕ → List ℕ → List ℕ
claimed line last = elim (trim line) [ [] ↦ last | c ∷ cs ↦ take max_command (c ∷ cs) ]

enter_trusted :
    (t : TypedLine)
    → t.esc ≡ 0
    → t.pasting ≡ false
    → t.dirty ≡ false
    → byte t b'\r'
      ≡ record t { line = []; last = claimed (from_utf8_lossy t.line) t.last; dirty = false }
unfolding byte plain enter
enter_trusted t e p d = rw (e, p, d)

-- A line of at most 4096 printable ASCII bytes typed at a fresh prompt is claimed at Enter: without
-- the white space around it and cut to 2000 characters. A blank line leaves the older command.
pub feed-typed :
    (bs : List ℕ) (t : TypedLine)
    → All Printable bs
    → length bs ≤ max_line
    → t.esc ≡ 0
    → t.pasting ≡ false
    → t.dirty ≡ false
    → t.line ≡ []
    → feed t (bs ++ b'\r' ∷ []) ≡ record t { line = []; last = claimed bs t.last; dirty = false }
unfolding feed
feed-typed bs t p short e pa d l =
    feed-append bs (b'\r' ∷ []) t
    ∙ ap (λ s. byte s b'\r')
        (feed-Printable bs t p e (rw l (omega arith)) ∙ ap (λ x. record t { line = x ++ bs }) l)
    ∙ enter_trusted (record t { line = bs }) e pa d
    ∙ ap (λ x. record t { line = []; last = claimed x t.last; dirty = false })
        (from_utf8_lossy-ascii bs (ascii bs p))
