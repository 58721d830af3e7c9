-- ===== src/Spacer/PidFd/Parses.antt =====
-- What the kernel prints is what `PIDfromPIDFd` reads.
use spacetest.Base.{
  ℕ, zero, suc, ◌+◌, ◌*◌, ◌/◌, ◌%◌, ◌^◌, ◌≤◌, ◌<◌, ℤ, pos, List, [], ◌∷◌, ◌++◌, none, some, Outcome,
  ok, ◌≡◌, ◌≢◌, refl, sym, ap, ◌∙◌, ◌==◌, All, Bool-cases, inl, inr, arith, subst,
}
use mathlib.Core.List.{append_assoc}
use spacetest.Base.Decimal.{
  Bytes, codes, digits, format_uint, format_int, scan, parse_uint32, parse_int32, lines_from, lines,
  cut_prefix, drop_last,
}
use spacetest.Spacer.PidFd.{find_pid, pid_from_fdinfo, pid_from_pid_fd, same_bytes}

scan-digit :
    (d : ℕ) (out : Bytes) (n : ℕ)
    → d < 10
    → n * 10 + d < 2 ^ 32
    → scan ((b'0' + d) ∷ out) n ≡ scan out (n * 10 + d)
unfolding scan
scan-digit d out n small fits = ground arith

scan-digits :
    (fuel n : ℕ) (out : Bytes) → n < fuel → n < 2 ^ 32 → scan (digits fuel n out) 0 ≡ scan out n
unfolding digits
scan-digits zero n out h fits = absurd (omega arith)
scan-digits (suc fuel) n out h fits = elim (Bool-cases (n / 10 == 0)) [
  | inl last ↦
      rw last (scan-digit (n % 10) out 0 (omega arith) (omega arith) ∙ ap (scan out) (ground arith))
  | inr more ↦ rw more (
      scan-digits fuel (n / 10) _ (ground arith) (omega arith)
      ∙ scan-digit (n % 10) out (n / 10) (omega arith) (omega arith)
      ∙ ap (scan out) (omega arith))
]

-- The text of a number is a digit and more digits.
abbrev IsDigit : ℕ → Type 0
IsDigit c = (b'0' ≤ c) × (c ≤ b'9')

digits-IsDigit :
    (fuel n : ℕ) (out : Bytes)
    → n < fuel
    → All IsDigit out
    → (c : ℕ) × (s : Bytes) × (digits fuel n out ≡ c ∷ s) × IsDigit c × All IsDigit s
unfolding digits
digits-IsDigit zero n out h ds = absurd (omega arith)
digits-IsDigit (suc fuel) n out h ds = elim (Bool-cases (n / 10 == 0)) [
  | inl last ↦ rw last (b'0' + n % 10, out, refl, omega arith, ds)
  | inr more ↦
      rw more
        (digits-IsDigit fuel (n / 10) ((b'0' + n % 10) ∷ out) (ground arith) (omega arith, ds))
]

format-IsDigit :
    (n : ℕ) → (c : ℕ) × (s : Bytes) × (format_uint n ≡ c ∷ s) × IsDigit c × All IsDigit s
unfolding format_uint
format-IsDigit n = digits-IsDigit (suc n) n [] (omega arith) tt

parse_int32_of_scan :
    (n c : ℕ) (s : Bytes)
    → IsDigit c
    → n < 2 ^ 31
    → scan (c ∷ s) 0 ≡ some n
    → parse_int32 (c ∷ s) ≡ some (pos n)
unfolding parse_int32 parse_uint32
parse_int32_of_scan n c s digit h e = ground arith

scan-format : (n : ℕ) → n < 2 ^ 31 → scan (format_uint n) 0 ≡ some n
unfolding format_uint
scan-format n h = scan-digits (suc n) n [] (omega arith) (omega arith) ∙ unfold scan in refl

parse_int32-format_uint : (n : ℕ) → n < 2 ^ 31 → parse_int32 (format_uint n) ≡ some (pos n)
parse_int32-format_uint n h =
    let (c, s, e, digit, _) = format-IsDigit n in
    ap parse_int32 e
    ∙ parse_int32_of_scan n c s digit h (sym (ap (λ t. scan t 0) e) ∙ scan-format n h)

-- No line of `b` ends inside.
abbrev pub IsLine : Bytes → Type 0
IsLine = All (λ c. c ≢ 10)

-- Lines, each with its newline.
abbrev pub unlines : List Bytes → Bytes
unlines [] = []
unlines (b ∷ bs) = b ++ 10 ∷ unlines bs

lines_from-char :
    (line : Bytes) (c : ℕ) (s : Bytes)
    → c ≢ 10
    → lines_from line (c ∷ s) ≡ lines_from (line ++ c ∷ []) s
unfolding lines_from
lines_from-char [] c s h = ground arith
lines_from-char (l ∷ line) c s h = ground arith

lines_from-newline :
    (line s : Bytes) → lines_from line (10 ∷ s) ≡ (line ++ 10 ∷ []) ∷ lines_from [] s
unfolding lines_from
lines_from-newline [] s = refl
lines_from-newline (l ∷ line) s = refl

lines_from-line :
    (line b s : Bytes)
    → IsLine b
    → lines_from line (b ++ 10 ∷ s) ≡ (line ++ (b ++ 10 ∷ [])) ∷ lines_from [] s
lines_from-line line [] s _ = lines_from-newline line s
lines_from-line line (c ∷ b) s (h, hs) =
    lines_from-char line c (b ++ 10 ∷ s) h
    ∙ lines_from-line (line ++ c ∷ []) b s hs
    ∙ ap (λ l. l ∷ lines_from [] s) (append_assoc line (c ∷ []) (b ++ 10 ∷ []))

-- A line that tells no PID.
abbrev pub OtherLine : Bytes → Type 0
OtherLine b = IsLine b × (cut_prefix (b ++ 10 ∷ []) (codes "Pid:\t") ≡ none)

find_pid-skip :
    (line : Bytes) (rest : List Bytes)
    → cut_prefix line (codes "Pid:\t") ≡ none
    → find_pid (line ∷ rest) ≡ find_pid rest
unfolding find_pid
find_pid-skip line rest h = rw (h, find_pid)

find_pid-unlines :
    (bs : List Bytes) (s : Bytes)
    → All OtherLine bs
    → find_pid (lines_from [] (unlines bs ++ s)) ≡ find_pid (lines_from [] s)
find_pid-unlines [] s _ = refl
find_pid-unlines (b ∷ bs) s ((h, other), hs) =
    ap (λ t. find_pid (lines_from [] t)) (append_assoc b (10 ∷ unlines bs) s)
    ∙ ap find_pid (lines_from-line [] b (unlines bs ++ s) h)
    ∙ find_pid-skip (b ++ 10 ∷ []) _ other
    ∙ find_pid-unlines bs s hs

drop_last-append : (s : Bytes) (c : ℕ) → drop_last (s ++ c ∷ []) ≡ s
unfolding drop_last
drop_last-append [] c = refl
drop_last-append (d ∷ []) c = refl
drop_last-append (d ∷ e ∷ s) c = ap (λ t. d ∷ t) (drop_last-append (e ∷ s) c)

IsDigit-IsLine : (s : Bytes) → All IsDigit s → IsLine s
IsDigit-IsLine [] _ = tt
IsDigit-IsLine (c ∷ s) (h, hs) = (λ e. omega arith, IsDigit-IsLine s hs)

cut_prefix-append : (v : Bytes) → cut_prefix (codes "Pid:\t" ++ v) (codes "Pid:\t") ≡ some v
unfolding cut_prefix
cut_prefix-append v = refl

find_pid-value :
    (line : Bytes) (c : ℕ) (v : Bytes) (rest : List Bytes) (pid : ℤ)
    → cut_prefix line (codes "Pid:\t") ≡ some (c ∷ v)
    → parse_int32 (drop_last (c ∷ v)) ≡ some pid
    → find_pid (line ∷ rest) ≡ ok pid
unfolding find_pid
find_pid-value line c v rest pid h e = rw (h, find_pid) (rw (e, find_pid))

find_pid-line :
    (n : ℕ) (rest : List Bytes)
    → n < 2 ^ 31
    → find_pid ((codes "Pid:\t" ++ (format_uint n ++ 10 ∷ [])) ∷ rest) ≡ ok (pos n)
find_pid-line n rest h =
    let (c, s, e, digit, _) = format-IsDigit n in
    let value : Bytes = s ++ 10 ∷ [] in
    find_pid-value _ c value rest (pos n)
      (cut_prefix-append (format_uint n ++ 10 ∷ []) ∙ ap (λ t. some (t ++ 10 ∷ [])) e)
      (ap parse_int32 (drop_last-append (c ∷ s) 10 ∙ sym e) ∙ parse_int32-format_uint n h)

-- `fdinfo`, as the kernel writes it: other lines, the line of the PID, and anything else.
abbrev pub fdinfo_of : List Bytes → ℕ → Bytes → Bytes
fdinfo_of before n rest = unlines before ++ ((codes "Pid:\t" ++ format_uint n) ++ 10 ∷ rest)

PidLine-IsLine : (n : ℕ) → IsLine (codes "Pid:\t" ++ format_uint n)
PidLine-IsLine n =
    let (c, s, e, digit, digits) = format-IsDigit n in
    (
      λ h. omega arith,
      (
        λ h. omega arith,
        (
          λ h. omega arith,
          (
            λ h. omega arith,
            (λ h. omega arith, subst IsLine (sym e) (IsDigit-IsLine (c ∷ s) (digit, digits))),
          ),
        ),
      ),
    )

-- If the link of the descriptor reads "anon_inode:[pidfd]" and its fdinfo has, behind any number
-- of whole lines that do not start with "Pid:" and a tab, a line with a PID below 2^31 in decimal,
-- then `PIDfromPIDFd` returns this PID, whatever follows.
pub pid_from_pid_fd-fdinfo_of :
    (readlink read_file : Bytes → Outcome Bytes) (pidfd : ℤ) (before : List Bytes) (n : ℕ)
    (rest : Bytes)
    → readlink (codes "/proc/self/fd/" ++ format_int pidfd) ≡ ok (codes "anon_inode:[pidfd]")
    → read_file (codes "/proc/self/fdinfo/" ++ format_int pidfd) ≡ ok (fdinfo_of before n rest)
    → All OtherLine before
    → n < 2 ^ 31
    → pid_from_pid_fd readlink read_file pidfd ≡ ok (pos n)
unfolding pid_from_pid_fd pid_from_fdinfo
pid_from_pid_fd-fdinfo_of readlink read_file pidfd before n rest link info others h =
    rw (link, pid_from_pid_fd)
      (unfold same_bytes in
        rw (info, pid_from_fdinfo)
          (unfold lines in
            (find_pid-unlines before _ others
              ∙ ap find_pid
                  (lines_from-line [] (codes "Pid:\t" ++ format_uint n) rest (PidLine-IsLine n))
              ∙ find_pid-line n _ h)))
