-- ===== src/Detector/Ssh/Lines/Progress.antt =====
-- Reading a log loses no line: what lies between two offsets is whole lines, and each is returned.
use my_safe.Prelude.{
  ℕ, ◌+◌, ◌≤◌, ◌≡◌, ◌<◌, zero, suc, All, refl, sym, ap, ◌∙◌, ◌⊎◌, inl, inr, Bool, true, false, some,
  List, [], ◌∷◌, ◌++◌, arith, length, take, drop, ltb, if◌then◌else◌, Bool-cases, take-append-drop,
}
use mathlib.Core.Path.{subst}
use my_safe.Prelude.Int.{pos}
use my_safe.Prelude.Text.{Text}
use my_safe.Detector.Ssh.Lines.{
  LogLine, Lines, max_line_bytes, complete_parts, size_of, collect, lines_at, read_lines,
}
use my_safe.Detector.Ssh.Lines.Parts.{
  join, IsLine, append_assoc, join-append, complete_parts-IsLine, All-front, joined,
  complete_parts_none-IsLine,
}

abbrev pub texts_of : List LogLine → List Text
texts_of [] = []
texts_of (l ∷ ls) = l.text ∷ texts_of ls

-- The parts that are short enough to be read.
unfoldable pub short_parts : List Text → List Text
short_parts [] = []
short_parts (part ∷ parts) =
    let rest = short_parts parts in if ltb max_line_bytes (length part) then rest else part ∷ rest

-- The loop stops between two parts; the lines that it returns are the short ones before, in order.
record Collected (parts : List Text) (max_lines count offset : ℕ) (l : Lines) : Type 0 where
  before_stop : List Text
  after_stop : List Text
  split : parts ≡ before_stop ++ after_stop
  reached : l.next_offset ≡ offset + size_of before_stop
  exact : texts_of l.lines ≡ short_parts before_stop
  bounded : count ≤ max_lines → count + length l.lines ≤ max_lines
  why : (max_lines ≤ count + length l.lines) ⊎ (after_stop ≡ [])

collect-Collected :
    (path : Text) (max_lines : ℕ) (limited : Bool) (parts : List Text) (count offset : ℕ)
    → Collected parts max_lines count offset (collect path max_lines limited parts count offset)
unfolding collect short_parts
collect-Collected path max_lines limited [] count offset = record {
  before_stop = [];
  after_stop = [];
  split = refl;
  reached = omega arith;
  exact = refl;
  bounded = λ h. omega arith;
  why = inr refl;
}
collect-Collected path max_lines limited (part ∷ parts) count offset =
    elim (Bool-cases (ltb max_line_bytes (length part))) [
      | inl long ↦
          let ih =
            collect-Collected path max_lines limited parts count (offset + (length part + 1)) in
          rw (long, collect)
            (record {
              before_stop = part ∷ ih.before_stop;
              after_stop = ih.after_stop;
              split = ap (λ ps. part ∷ ps) ih.split;
              reached = omega (arith, ih.reached);
              exact = rw long ih.exact;
              bounded = ih.bounded;
              why = ih.why;
            })
      | inr short ↦ elim (Bool-cases (ltb count max_lines)) [
        | inl room ↦
            let ih =
              collect-Collected path max_lines limited parts (count + 1)
                (offset + (length part + 1)) in
            rw (short, room, collect)
              (record {
                before_stop = part ∷ ih.before_stop;
                after_stop = ih.after_stop;
                split = ap (λ ps. part ∷ ps) ih.split;
                reached = omega (arith, ih.reached);
                exact = rw short (ap (λ ts. part ∷ ts) ih.exact);
                bounded = λ h. let more = ih.bounded (ground arith) in omega (arith, more);
                why = elim ih.why [ inl full ↦ inl (omega (arith, full)) | inr all ↦ inr all ];
              })
        | inr full ↦
            rw (short, full, collect)
              (record {
                before_stop = [];
                after_stop = part ∷ parts;
                split = refl;
                reached = omega arith;
                exact = refl;
                bounded = λ h. omega arith;
                why = inl (ground arith);
              })
      ]
    ]

-- The log from `offset` on, read up to `l.next_offset`. What follows the lines that were dealt with is
-- `unread` up to the end of the log or of the read; it holds no newline, unless enough lines were read.
pub record IsRead (file : Text) (offset max_read max_lines : ℕ) (l : Lines) : Type 0 where
  pub consumed : List Text
  pub unread : Text
  pub behind : Text
  pub whole : drop offset file ≡ join consumed ++ (unread ++ behind)
  pub separate : All IsLine consumed
  pub reached : l.next_offset ≡ offset + size_of consumed
  pub exact : texts_of l.lines ≡ short_parts consumed
  pub bounded : length l.lines ≤ max_lines
  pub window : (behind ≡ []) ⊎ (max_read ≤ length (join consumed ++ unread))
  pub enough : (max_lines ≤ length l.lines) ⊎ IsLine unread

-- A full read without a newline, which is passed over and reported.
pub record IsPassed (file : Text) (offset max_read : ℕ) (l : Lines) : Type 0 where
  pub passed : Text
  pub behind : Text
  pub whole : drop offset file ≡ passed ++ behind
  pub full : length passed ≡ max_read
  pub no_newline : IsLine passed
  pub no_lines : l.lines ≡ []
  pub reported : (l.limited ≡ true) × (l.oversized ≡ true)
  pub advanced : l.next_offset ≡ offset + max_read

regroup :
    (content tail : Text) (ps bs behind_stop : List Text)
    → content ≡ join ps ++ tail
    → ps ≡ bs ++ behind_stop
    → content ≡ join bs ++ (join behind_stop ++ tail)
regroup content tail ps bs behind_stop e s = rw (e, s, join-append) (simp append_assoc)

Collected-IsRead :
    (file content behind : Text) (offset max_read max_lines : ℕ) (l : Lines)
    → drop offset file ≡ content ++ behind
    → (behind ≡ []) ⊎ (max_read ≤ length content)
    → Collected (complete_parts content) max_lines 0 offset l
    → IsRead file offset max_read max_lines l
Collected-IsRead file content behind offset max_read max_lines l e window h =
    let (tail, e', line) = joined content in
    let bounded = h.bounded (omega arith) in
    let unread : Text = join h.after_stop ++ tail in
    let grouped : content ≡ join h.before_stop ++ unread =
      regroup content tail (complete_parts content) h.before_stop h.after_stop e' h.split in
    record {
      consumed = h.before_stop;
      unread = unread;
      behind = behind;
      whole =
          e
          ∙ ap (λ (t : Text). t ++ behind) grouped
          ∙ append_assoc (join h.before_stop) unread behind;
      separate =
          All-front h.before_stop h.after_stop (complete_parts content) h.split
            (complete_parts-IsLine content);
      reached = h.reached;
      exact = h.exact;
      bounded = omega (arith, bounded);
      window = subst (λ (t : Text). (behind ≡ []) ⊎ (max_read ≤ length t)) grouped window;
      enough = elim h.why [ inl full ↦ inl (omega (arith, full)) | inr all ↦ inr (rw all line) ];
    }

-- Whether the read was cut, and what that says of the content.
abbrev Window : ℕ → Bool → Text → Text → Type 0
Window max_read true content behind = length content ≡ max_read
Window max_read false content behind = behind ≡ []

Window-cases :
    (max_read : ℕ) (limited : Bool) (content behind : Text)
    → Window max_read limited content behind
    → (behind ≡ []) ⊎ (max_read ≤ length content)
Window-cases max_read true content behind h = inr (omega (arith, h))
Window-cases max_read false content behind h = inl h

lines_at-cases :
    (file content behind path : Text) (offset max_read max_lines : ℕ) (limited : Bool)
    (parts : List Text)
    → drop offset file ≡ content ++ behind
    → Window max_read limited content behind
    → parts ≡ complete_parts content
    → let l = lines_at path max_lines offset limited content parts in
      IsRead file offset max_read max_lines l ⊎ IsPassed file offset max_read l
unfolding lines_at
lines_at-cases file content behind path offset max_read max_lines true [] e full same =
    inr (record {
      passed = content;
      behind = behind;
      whole = e;
      full = full;
      no_newline = complete_parts_none-IsLine content (sym same);
      no_lines = refl;
      reported = (refl, refl);
      advanced = omega (arith, full);
    })
lines_at-cases file content behind path offset max_read max_lines false [] e ends same = inl (
    Collected-IsRead file content behind offset max_read max_lines _ e (inl ends) (
      subst (λ ps. Collected ps max_lines 0 offset (collect path max_lines false [] 0 offset)) same
        (collect-Collected path max_lines false [] 0 offset)))
lines_at-cases file content behind path offset max_read max_lines limited (part ∷ parts) e window
      same =
    let all = collect-Collected path max_lines limited (part ∷ parts) 0 offset in
    inl (
      Collected-IsRead file content behind offset max_read max_lines _ e
        (Window-cases max_read limited content behind window)
        (subst
          (λ ps.
            Collected ps max_lines 0 offset
              (collect path max_lines limited (part ∷ parts) 0 offset))
          same all))

length-take_full : (n : ℕ) (t : Text) → n < length t → length (take n t) ≡ n
length-take_full zero t h = refl
length-take_full (suc n) [] h = omega arith
length-take_full (suc n) (c ∷ t) h =
    let rest = length-take_full n t (omega arith) in omega (arith, rest)

drop-take_all : (n : ℕ) (t : Text) → length (take n t) < n → drop n t ≡ []
drop-take_all zero t h = absurd (omega arith)
drop-take_all (suc n) [] h = refl
drop-take_all (suc n) (c ∷ t) h = drop-take_all n t (omega arith)

split_twice : (n m : ℕ) (t : Text) → t ≡ take n (take m t) ++ (drop n (take m t) ++ drop m t)
split_twice n m t = sym (
    sym (append_assoc (take n (take m t)) (drop n (take m t)) (drop m t))
    ∙ ap (λ (u : Text). u ++ drop m t) (take-append-drop n (take m t))
    ∙ take-append-drop m t)

-- Where the scan goes on after reading a log, everything before has been dealt with: from the old
-- offset on the log is whole lines up to the new one, and the lines that were read are exactly those of
-- them no longer than 16 KiB, in order, and no more than asked for; fewer only if no further newline is
-- within the read. The one exception is a full read that holds no newline, which is passed over and
-- reported.
pub read_lines-IsRead :
    (max_read : ℕ) (path file : Text) (offset max_lines : ℕ) (l : Lines)
    → read_lines max_read path file (pos offset) max_lines ≡ some l
    → IsRead file offset max_read max_lines l ⊎ IsPassed file offset max_read l
unfolding read_lines
read_lines-IsRead max_read path file offset max_lines l h =
    let from : Text = drop offset file in
    let content : Text = take (max_read + 1) from in
    let Goal : Lines → Type 0 =
      λ l. IsRead file offset max_read max_lines l ⊎ IsPassed file offset max_read l in
    elim (Bool-cases (ltb max_read (length content))) [
      | inl limited ↦
          let short : Text = take max_read content in
          subst Goal (cc (rw limited at h)) (
            lines_at-cases file short (drop max_read content ++ drop (max_read + 1) from) path
              offset max_read max_lines true (complete_parts short)
              (split_twice max_read (max_read + 1) from)
              (length-take_full max_read content (ground arith)) refl)
      | inr whole ↦ subst Goal (cc (rw whole at h)) (
          lines_at-cases file content (drop (max_read + 1) from) path offset max_read max_lines
            false (complete_parts content) (sym (take-append-drop (max_read + 1) from))
            (drop-take_all (max_read + 1) from (ground arith)) refl)
    ]
