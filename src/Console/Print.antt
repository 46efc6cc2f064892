-- ===== src/Console/Print.antt =====
-- MP7_Sources/console.C: strings and numbers on the screen and at the serial port.
use mathlib.Core.List.{append-nil, append_assoc}
use csce410_611_spring2026_p.Utils.{strlen, uint2str}
use csce410_611_spring2026_p.Utils.Digits.{Decimal, uint2str-Decimal}
use csce410_611_spring2026_p.Console.{Console, putch, put_chars, puts, putui}
use csce410_611_spring2026_p.Console.Screen.{
  OnScreen, is_printable, is_sent, putch-Step, Step-OnScreen,
}
use csce410_611_spring2026_p.Base.{
  ℕ, zero, suc, ◌+◌, ◌<◌, ◌≤◌, ◌≡◌, ◌≢◌, refl, sym, ap, ◌∙◌, true, false, some, List, [], ◌∷◌, ◌++◌,
  arith, ◌==◌, word_size,
}

-- `k` characters from index `i` on
abbrev pub chars : (k i : ℕ) → (ℕ → ℕ) → List ℕ
chars zero i s = []
chars (suc k) i s = s i ∷ chars k (i + 1) s

-- Every character goes to the screen and, with the output redirected, to the serial port.
pub record Shown (c : Console) (sent : List ℕ) (c' : Console) : Type 0 where
  pub valid : OnScreen c'
  pub serial : c'.serial ≡ c.serial ++ sent
  pub redirected : c'.output_redirected ≡ true

show_one :
    (c : Console) (ch : ℕ)
    → OnScreen c
    → c.output_redirected ≡ true
    → is_printable ch ≡ true
    → Shown c (ch ∷ []) (putch c ch)
show_one c ch v on printable =
    let step = putch-Step c ch v in
    let sent : is_sent c ch ≡ true = ground arith in
    record {
      valid = Step-OnScreen c (putch c ch) ch v step;
      serial = step.sent ∙ rw sent refl;
      redirected = step.same_redirection ∙ on;
    }

Shown-trans :
    (c c' c'' : Console) (a b : List ℕ) → Shown c a c' → Shown c' b c'' → Shown c (a ++ b) c''
Shown-trans c c' c'' a b s s' = record {
  valid = s'.valid;
  serial = s'.serial ∙ ap (λ l. l ++ b) s.serial ∙ append_assoc c.serial a b;
  redirected = s'.redirected;
}

show_chars :
    (k i : ℕ) (s : ℕ → ℕ) (c : Console)
    → OnScreen c
    → c.output_redirected ≡ true
    → ((j : ℕ) → i ≤ j → j < i + k → is_printable (s j) ≡ true)
    → Shown c (chars k i s) (put_chars k i s c)
unfolding put_chars
show_chars zero i s c v on printable = record {
  valid = v;
  serial = sym (append-nil c.serial);
  redirected = on;
}
show_chars (suc k) i s c v on printable =
    let one = show_one c (s i) v on (printable i (omega arith) (omega arith)) in
    Shown-trans c (putch c (s i)) (put_chars k (i + 1) s (putch c (s i))) (s i ∷ [])
      (chars k (i + 1) s) one
      (show_chars k (i + 1) s (putch c (s i)) one.valid one.redirected
        (λ j a b. printable j (omega arith) (omega arith)))

strlen-some :
    (len fuel i : ℕ) (s : ℕ → ℕ)
    → len < fuel
    → ((j : ℕ) → j < len → s (i + j) ≢ 0)
    → s (i + len) ≡ 0
    → strlen fuel s i ≡ some len
unfolding strlen
strlen-some len zero i s less others ended = absurd (omega arith)
strlen-some zero (suc fuel) i s less others ended =
    (let here : s i ≡ 0 = ap s (omega arith) ∙ ended in rw here refl)
strlen-some (suc len) (suc fuel) i s less others ended =
    let here : (s i == 0) ≡ false =
      (let first : i + 0 ≡ i = omega arith in
        let other = others 0 (omega arith) in ground (arith, ap s first)) in
    let rest =
      strlen-some len fuel (i + 1) s (omega arith)
        (λ j h e. others (suc j) (omega arith) (ap s (omega arith) ∙ e))
        (ap s (omega arith) ∙ ended) in
    rw (here, rest) (ap some (omega arith))

-- A decimal string
module _ (n len : ℕ) (before str : ℕ → ℕ) (d : Decimal n before str len) where
  digit_printable : (j : ℕ) → j < len → is_printable (str j) ≡ true
  digit_printable j h = let (low, high) = d.is_digit j h in ground arith

  strlen-Decimal : (fuel : ℕ) → 10 < fuel → strlen fuel str 0 ≡ some len
  strlen-Decimal fuel enough =
      let short = d.short in
      strlen-some len fuel 0 str (omega arith)
        (λ j h e.
          (let at : 0 + j ≡ j = omega arith in
            let low = (d.is_digit j h).0 in
            let zero_digit : str j ≡ 0 = ap str (sym at) ∙ e in absurd (omega arith)))
        (ap str (omega arith) ∙ d.ended)

-- With the cursor on the screen, output redirected, and fuel above 10, `putui` of a number of 32 bits ends with the
-- cursor on the screen, and the serial port gets the number's decimal digits in angle brackets.
pub putui-Shown :
    (fuel n : ℕ) (raw buffer : ℕ → ℕ) (c : Console)
    → 10 < fuel
    → n < word_size
    → OnScreen c
    → c.output_redirected ≡ true
    → (len : ℕ) × (str : ℕ → ℕ) × (c' : Console) × (putui fuel raw buffer n c ≡ some c')
      × (Decimal n buffer str len × Shown c (60 ∷ chars len 0 str ++ (62 ∷ [])) c')
unfolding putui puts
putui-Shown fuel n raw buffer c enough fits v on =
    let (len, d) = uint2str-Decimal raw buffer n fits in
    let str = uint2str raw n buffer in
    let found = strlen-Decimal n len buffer str d fuel enough in
    let opened = show_one c 60 v on refl in
    let number =
      show_chars len 0 str (putch c 60) opened.valid opened.redirected
        (λ j a b. digit_printable n len buffer str d j (omega arith)) in
    let closed =
      show_one (put_chars len 0 str (putch c 60)) 62 number.valid number.redirected refl in
    (
      len,
      str,
      putch (put_chars len 0 str (putch c 60)) 62,
      rw found refl,
      (
        d,
        Shown-trans c (putch c 60) (putch (put_chars len 0 str (putch c 60)) 62) (60 ∷ [])
            (chars len 0 str ++ (62 ∷ [])) opened
            (Shown-trans (putch c 60) (put_chars len 0 str (putch c 60))
              (putch (put_chars len 0 str (putch c 60)) 62) (chars len 0 str) (62 ∷ []) number
              closed),
      ),
    )
