-- ===== src/Console/Screen.antt =====
-- MP7_Sources/console.C: the cursor stays on the screen, and nothing is written outside it.
use csce410_611_spring2026_p.Utils.{memsetw}
use csce410_611_spring2026_p.Console.{Console, cell, move_up, scroll, place, wrap, putch}
use csce410_611_spring2026_p.Base.{
  ℕ, zero, suc, ◌+◌, ◌-◌, ◌*◌, ◌%◌, ◌<◌, ◌≤◌, ◌≡◌, refl, ap, ◌∙◌, inl, inr, Bool, true, ◌&&◌, ◌||◌,
  ◌/◌, ◌^◌, [], ◌∷◌, ◌++◌, arith, ltb, ◌==◌, if◌then◌else◌, put, Bool-cases, leb,
}

pub record OnScreen (c : Console) : Type 0 where
  pub column : c.csr_x < 80
  pub row : c.csr_y < 25

memsetw-at :
    (k i v : ℕ) (m : ℕ → ℕ) (j : ℕ)
    → memsetw k i v m j ≡ (if leb i j && ltb j (i + k) then v else m j)
unfolding memsetw
memsetw-at zero i v m j = ground arith
memsetw-at (suc k) i v m j = ground (arith, memsetw-at k (i + 1) v (put m i v) j)

move_up-at :
    (k i temp : ℕ) (m : ℕ → ℕ) (j : ℕ)
    → 0 < temp
    → move_up k i temp m j ≡ (if leb i j && ltb j (i + k) then m (j + temp * 80) else m j)
unfolding move_up
move_up-at zero i temp m j pos = ground arith
move_up-at (suc k) i temp m j pos =
    ground (arith, move_up-at k (i + 1) temp (put m i (m (i + temp * 80))) j pos)

abbrev pub is_printable : ℕ → Bool
is_printable ch = leb 32 ch && ltb ch 128

-- The cells with the character at the cursor, before the screen scrolls
abbrev pub written : Console → ℕ → ℕ → ℕ
written c ch = if is_printable ch then put c.text (c.csr_y * 80 + c.csr_x) (cell c ch) else c.text

-- The cursor leaves the row: by a new line, at the right edge, or by a tab from the last eight columns.
abbrev pub leaves_row : Console → ℕ → Bool
leaves_row c ch = ch == 10 || is_printable ch && c.csr_x == 79 || ch == 9 && leb 72 c.csr_x

abbrev pub next_column : Console → ℕ → ℕ
next_column c ch =
    if leaves_row c ch || ch == 13
    then 0
    else if ch == 8
    then c.csr_x - 1
    else if ch == 9
    then c.csr_x / 8 * 8 + 8
    else if is_printable ch
    then c.csr_x + 1
    else c.csr_x

abbrev pub is_sent : Console → ℕ → Bool
is_sent c ch = ch == 13 || c.output_redirected && (ch == 10 || is_printable ch)

-- What `putch` does: it scrolls by one row if the cursor leaves the last one.
pub record Step (c : Console) (ch : ℕ) (c' : Console) : Type 0 where
  pub column : c'.csr_x ≡ next_column c ch
  pub row : c'.csr_y ≡ (if leaves_row c ch && ltb c.csr_y 24 then c.csr_y + 1 else c.csr_y)
  pub cells :
      (j : ℕ)
      → j < 2000
      → c'.text j ≡ (
          if leaves_row c ch && c.csr_y == 24
          then (if ltb j 1920 then written c ch (j + 80) else cell c 32)
          else written c ch j)
  pub outside : (j : ℕ) → 2000 ≤ j → c'.text j ≡ c.text j
  pub sent : c'.serial ≡ (if is_sent c ch then c.serial ++ (ch ∷ []) else c.serial)
  pub same_color : c'.attrib ≡ c.attrib
  pub same_redirection : c'.output_redirected ≡ c.output_redirected

-- Before the screen scrolls
record Placed (c : Console) (ch : ℕ) (c' : Console) : Type 0 where
  column : c'.csr_x ≡ next_column c ch
  row : c'.csr_y ≡ (if leaves_row c ch then c.csr_y + 1 else c.csr_y)
  text : (j : ℕ) → c'.text j ≡ written c ch j
  sent : c'.serial ≡ (if is_sent c ch then c.serial ++ (ch ∷ []) else c.serial)
  color : c'.attrib ≡ c.attrib
  redirection : c'.output_redirected ≡ c.output_redirected

place-Placed : (c : Console) (ch : ℕ) → OnScreen c → Placed c ch (wrap (place c ch))
unfolding place wrap
place-Placed c ch v =
    let column = v.column in
    record {
      column = ground arith;
      row = ground arith;
      text = λ j. ground arith;
      sent = ground arith;
      color = ground arith;
      redirection = ground arith;
    }

-- With the cursor at most one row below the screen
module _ (c : Console) (fits : c.csr_y ≤ 25) where
  abbrev scrolled : Bool
  scrolled = leb 25 c.csr_y

  scroll-row : (scroll c).csr_y ≡ (if scrolled then 24 else c.csr_y)
  unfolding scroll
  scroll-row = ground arith

  scroll-column : (scroll c).csr_x ≡ c.csr_x
  unfolding scroll
  scroll-column = ground arith

  scroll-others :
      ((scroll c).serial ≡ c.serial)
      × ((scroll c).attrib ≡ c.attrib)
      × ((scroll c).output_redirected ≡ c.output_redirected)
  unfolding scroll
  scroll-others = (ground arith, ground arith, ground arith)

  scroll-text :
      (j : ℕ)
      → (scroll c).text j ≡ (
          if scrolled && ltb j 2000
          then (if ltb j 1920 then c.text (j + 80) else cell c 32)
          else c.text j)
  unfolding scroll
  scroll-text j = elim (Bool-cases scrolled) [
    | inr off ↦ rw off refl
    | inl on ↦
        (let one : c.csr_y - 25 + 1 ≡ 1 = ground arith in
          rw (on, one)
            (ground (
              arith,
              memsetw-at 80 1920 (cell c 32) (move_up 1920 0 1 c.text) j,
              move_up-at 1920 0 1 c.text j (omega arith),
            )))
  ]

if_and_true : (b : Bool) (x y : ℕ) → (if b && true then x else y) ≡ (if b then x else y)
if_and_true b x y = ground arith

-- With the cursor on the screen, `putch` of any byte moves the cursor and sends the byte as `Step` says; of the cells
-- it changes only the one at the cursor, if the byte is printable, and scrolls by one row if the cursor leaves the last
-- one; nothing outside the 2000 cells changes.
pub putch-Step : (c : Console) (ch : ℕ) → OnScreen c → Step c ch (putch c ch)
unfolding putch
putch-Step c ch v =
    let w = wrap (place c ch) in
    let p = place-Placed c ch v in
    let column = v.column in
    let row = v.row in
    let fits : w.csr_y ≤ 25 = ground (arith, p.row) in
    let (serial, color, redirection) = scroll-others w fits in
    record {
      column = scroll-column w fits ∙ p.column;
      row = scroll-row w fits ∙ ground (arith, p.row);
      cells = λ j less.
          scroll-text w fits j
          ∙ (let blank : cell w 32 ≡ cell c 32 = ap (λ a. (32 + a * 256) % 2 ^ 16) p.color in
              let below : leb 25 w.csr_y ≡ (leaves_row c ch && c.csr_y == 24) =
                ground (arith, p.row) in
              let inside : ltb j 2000 ≡ true = ground arith in
              rw (below, inside, p.text (j + 80), p.text j, blank)
                (if_and_true (leaves_row c ch && c.csr_y == 24) _ _));
      outside = λ j out.
          scroll-text w fits j
          ∙ (let before : written c ch j ≡ c.text j = ground arith in ground (arith, p.text j));
      sent = serial ∙ p.sent;
      same_color = color ∙ p.color;
      same_redirection = redirection ∙ p.redirection;
    }

pub Step-OnScreen : (c c' : Console) (ch : ℕ) → OnScreen c → Step c ch c' → OnScreen c'
Step-OnScreen c c' ch v s =
    let column = v.column in
    let row = v.row in record { column = ground (arith, s.column); row = ground (arith, s.row) }
