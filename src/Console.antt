-- ===== src/Console.antt =====
-- MP7_Sources/console.C (the other folders have the same text): class Console. The screen is 25 rows of 80 cells of 16
-- bits from `textmemptr` on. A character is a byte; those from 128 on are negative as `char`. `serial` is what was sent
-- to port 0x3f8, the oldest first. `move_cursor` sends no position to the screen (its two data bytes are commented
-- out).
pub mod Print
pub mod Screen
mod Tests
use csce410_611_spring2026_p.Base.Run.{Run, ok, out_of_fuel}
use mathlib.Core.Option
use csce410_611_spring2026_p.Utils.{memsetw, strlen, uint2str}
use csce410_611_spring2026_p.Base.{
  ℕ, zero, suc, ◌+◌, ◌-◌, ◌*◌, ◌%◌, ◌<◌, ◌≤◌, ◌≡◌, ◌≢◌, refl, sym, ap, ◌∙◌, inl, inr, ◌⊎◌, Bool,
  true, false, ◌&&◌, ◌||◌, ◌/◌, ◌^◌, Option, some, none, List, [], ◌∷◌, ◌++◌, arith, ltb, ◌==◌,
  if◌then◌else◌, put, put_ne, put_self, ℕ_discrete, dec_lt, copy, field_of, with_field,
  with_field-lt, field_of-with_field, field_of-put, length, Bool-cases, word_size, leb,
}

pub record Console : Type 0 where
  pub attrib : ℕ
  pub csr_x : ℕ
  pub csr_y : ℕ
  pub text : ℕ → ℕ
  pub output_redirected : Bool
  pub serial : List ℕ

-- A blank, and any other character: the low byte is the character, and a cell has 16 bits.
abbrev pub cell : Console → ℕ → ℕ
cell c ch = (ch + c.attrib * 256) % 2 ^ 16

unfoldable pub set_text_color : Console → (forecolor backcolor : ℕ) → Console
set_text_color c forecolor backcolor = record c { attrib = backcolor * 16 + forecolor % 16 }

unfoldable pub redirect_output : Console → Bool → Console
redirect_output c on_off = record c { output_redirected = on_off }

-- The `memcpy` of `scroll`, which moves up by `temp` rows: `k` cells left, at index `i`
unfoldable pub move_up : (k i temp : ℕ) → (ℕ → ℕ) → ℕ → ℕ
move_up zero i temp text = text
move_up (suc k) i temp text = move_up k (i + 1) temp (put text i (text (i + temp * 80)))

unfoldable pub scroll : Console → Console
scroll c =
    if leb 25 c.csr_y
    then (let temp = c.csr_y - 25 + 1 in
        let rows = (word_size + 25 - temp) % word_size in
        record c {
          text = memsetw 80 (rows * 80) (cell c 32) (move_up (rows * 80) 0 temp c.text);
          csr_y = 24;
        })
    else c

-- The loop of `cls`, with `k` rows left at row `i`
unfoldable pub clear_rows : (k i blank : ℕ) → (ℕ → ℕ) → ℕ → ℕ
clear_rows zero i blank text = text
clear_rows (suc k) i blank text = clear_rows k (i + 1) blank (memsetw 80 (i * 80) blank text)

unfoldable pub cls : Console → Console
cls c = record c { text = clear_rows 25 0 (cell c 32) c.text; csr_x = 0; csr_y = 0 }

unfoldable pub init : Console → (fore_color back_color : ℕ) → Console
init c fore_color back_color =
    cls (record (set_text_color c fore_color back_color) { csr_x = 0; csr_y = 0 })

abbrev pub send : Console → ℕ → Console
send c ch = record c { serial = c.serial ++ (ch ∷ []) }

abbrev pub send_redirected : Console → ℕ → Console
send_redirected c ch = if c.output_redirected then send c ch else c

-- The branches of `putch`. Behind a carriage return the test is of the function `redirect_output`, which is never null.
unfoldable pub place : Console → ℕ → Console
place c ch =
    if ch == 8
    then (if c.csr_x == 0 then c else record c { csr_x = c.csr_x - 1 })
    else if ch == 9
    then record c { csr_x = (c.csr_x + 8) / 8 * 8 }
    else if ch == 13
    then send (record c { csr_x = 0 }) ch
    else if ch == 10
    then send_redirected (record c { csr_x = 0; csr_y = c.csr_y + 1 }) ch
    else if leb 32 ch && ltb ch 128
    then send_redirected
        (record c { text = put c.text (c.csr_y * 80 + c.csr_x) (cell c ch); csr_x = c.csr_x + 1 })
        ch
    else c

-- The new line at the edge of the screen
unfoldable pub wrap : Console → Console
wrap c = if leb 80 c.csr_x then record c { csr_x = 0; csr_y = c.csr_y + 1 } else c

unfoldable pub putch : Console → ℕ → Console
putch c ch = scroll (wrap (place c ch))

-- The loop of `puts` over a string of `k` more characters, at index `i`
unfoldable pub put_chars : (k i : ℕ) → (ℕ → ℕ) → Console → Console
put_chars zero i s c = c
put_chars (suc k) i s c = put_chars k (i + 1) s (putch c (s i))

-- `puts`, on fuel for `strlen`; the string does not change, so its length is taken once.
unfoldable pub puts : ℕ → (ℕ → ℕ) → Console → Option Console
puts fuel s c = Option.map (λ len. put_chars len 0 s c) (strlen fuel s 0)

-- `raw` is what the array of `uint2str` held, and `buffer` the one of `putui`.
unfoldable pub putui : ℕ → (raw buffer : ℕ → ℕ) → ℕ → Console → Option Console
putui fuel raw buffer n c =
    Option.map (λ c'. putch c' 62) (puts fuel (uint2str raw n buffer) (putch c 60))
