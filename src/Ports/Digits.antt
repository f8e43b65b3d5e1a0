-- ===== src/Ports/Digits.antt =====
-- ssh.go: what `KillProcessByPort` ends.
use mathlib.Core.List.{reverse, reverse-cons}
use ssh_tunnel_manager.Common.{
  ◌≡◌, inl, inr, Bool, true, false, List, [], ◌∷◌, Text, All, Bool-cases, Option-cases, ℕ,
  All-append, if◌then◌else◌, text,
}
use ssh_tunnel_manager.Common.Strings.{split, cut, trim_space, trim_left, trim_reversed}
use ssh_tunnel_manager.Ports.{is_digit, leading_digits, line_pid, first_pid, extract_pid_from_ss}
use ssh_tunnel_manager.SshCommand.{is_empty}

abbrev pub Digits : Text → Type 0
Digits = All (λ c. is_digit c ≡ true)

leading_digits-Digits : (s : Text) → Digits (leading_digits s)
unfolding leading_digits
leading_digits-Digits [] = tt
leading_digits-Digits (c ∷ s) = elim (Bool-cases (is_digit c)) [
  | inl y ↦ rw (y, leading_digits) (y, leading_digits-Digits s)
  | inr f ↦ rw (f, leading_digits) tt
]

-- `All` behind a constructor, so that the texts of a conditional are found.
record Holds {ℓ} (P : ℕ → Type ℓ) (s : Text) : Type ℓ where
  all : All P s

module _ {ℓ} (P : ℕ → Type ℓ) where
  choose : (b : Bool) (x y : Text) → Holds P x → Holds P y → Holds P (if b then x else y)
  choose true x y hx hy = hx
  choose false x y hx hy = hy

  keep : (s : Text) → All P s → Holds P s
  keep s h = record { all = h }

  nothing : Holds P []
  nothing = record { all = tt }

  Holds-trim_left : (s : Text) → All P s → Holds P (trim_left s)
  unfolding trim_left
  Holds-trim_left [] h = nothing
  Holds-trim_left (a ∷ []) h = choose _ _ _ nothing (keep (a ∷ []) h)
  Holds-trim_left (a ∷ b ∷ []) (h, (k, l)) =
      choose _ _ _ (Holds-trim_left (b ∷ []) (k, l))
        (choose _ _ _ nothing (keep (a ∷ b ∷ []) (h, (k, l))))
  Holds-trim_left (a ∷ b ∷ c ∷ s) (h, (k, (l, m))) =
      choose _ _ _ (Holds-trim_left (b ∷ c ∷ s) (k, (l, m))) (
        choose _ _ _ (Holds-trim_left (c ∷ s) (l, m))
          (choose _ _ _ (Holds-trim_left s m) (keep (a ∷ b ∷ c ∷ s) (h, (k, (l, m))))))

  Holds-trim_reversed : (s : Text) → All P s → Holds P (trim_reversed s)
  unfolding trim_reversed
  Holds-trim_reversed [] h = nothing
  Holds-trim_reversed (a ∷ []) h = choose _ _ _ nothing (keep (a ∷ []) h)
  Holds-trim_reversed (a ∷ b ∷ []) (h, (k, l)) =
      choose _ _ _ (Holds-trim_reversed (b ∷ []) (k, l))
        (choose _ _ _ nothing (keep (a ∷ b ∷ []) (h, (k, l))))
  Holds-trim_reversed (a ∷ b ∷ c ∷ s) (h, (k, (l, m))) =
      choose _ _ _ (Holds-trim_reversed (b ∷ c ∷ s) (k, (l, m))) (
        choose _ _ _ (Holds-trim_reversed (c ∷ s) (l, m))
          (choose _ _ _ (Holds-trim_reversed s m) (keep (a ∷ b ∷ c ∷ s) (h, (k, (l, m))))))

  All-reverse : (s : Text) → All P s → All P (reverse s)
  All-reverse [] h = tt
  All-reverse (a ∷ s) (h, hs) =
      rw (reverse-cons a s) (All-append P (reverse s) (a ∷ []) (All-reverse s hs) (h, tt))

  -- What is left of a text has the bytes that it had.
  All-trim_space : (s : Text) → All P s → All P (trim_space s)
  unfolding trim_space
  All-trim_space s h =
      All-reverse (trim_reversed (reverse (trim_left s)))
        (Holds-trim_reversed (reverse (trim_left s))
          (All-reverse (trim_left s) (Holds-trim_left s h).all)).all

line_pid-Digits : (line : Text) → Digits (line_pid line)
unfolding line_pid
line_pid-Digits line = elim (Option-cases (cut (text "pid=") line)) [
  | inl n ↦ rw (n, line_pid) tt
  | inr ((before, rest), e) ↦
      rw (e, line_pid)
        (All-trim_space (λ c. is_digit c ≡ true) (leading_digits rest) (leading_digits-Digits rest))
]

first_pid-Digits : (lines : List Text) → Digits (first_pid lines)
unfolding first_pid
first_pid-Digits [] = tt
first_pid-Digits (line ∷ lines) = elim (Bool-cases (is_empty (line_pid line))) [
  | inl y ↦ rw (y, first_pid) (first_pid-Digits lines)
  | inr f ↦ rw (f, first_pid) (line_pid-Digits line)
]

-- Whatever ss prints, the PID that is read from it has decimal digits only.
pub extract_pid_from_ss-Digits : (output : Text) → Digits (extract_pid_from_ss output)
unfolding extract_pid_from_ss
extract_pid_from_ss-Digits output = first_pid-Digits (split output b'\n')
