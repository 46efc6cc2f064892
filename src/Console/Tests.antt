-- ===== src/Console/Tests.antt =====
-- A screen with the cursor in its last cell.
use csce410_611_spring2026_p.Utils.Digits.{Decimal}
use csce410_611_spring2026_p.Console.{Console, putch, putui}
use csce410_611_spring2026_p.Console.Screen.{OnScreen, Step, putch-Step}
use csce410_611_spring2026_p.Console.Print.{Shown, chars, putui-Shown}
use csce410_611_spring2026_p.Base.{ℕ, ◌≡◌, refl, true, some, [], ◌∷◌, ◌++◌, arith}

abbrev last_cell : Console
last_cell = record {
  attrib = 15;
  csr_x = 79;
  csr_y = 24;
  text = λ i. i;
  output_redirected = true;
  serial = 65 ∷ [];
}

last_cell-OnScreen : OnScreen last_cell
last_cell-OnScreen = record { column = omega arith; row = omega arith }

putch-Step_example : Step last_cell 66 (putch last_cell 66)
putch-Step_example = putch-Step last_cell 66 last_cell-OnScreen

putui-Shown_example :
    (len : ℕ) × (str : ℕ → ℕ) × (c' : Console) × (putui 11 (λ i. 7) (λ i. 9) 4096 last_cell
      ≡ some c')
    × (Decimal 4096 (λ i. 9) str len × Shown last_cell (60 ∷ chars len 0 str ++ (62 ∷ [])) c')
putui-Shown_example =
    putui-Shown 11 4096 (λ i. 7) (λ i. 9) last_cell (omega arith) (omega arith) last_cell-OnScreen
      refl
