-- ===== src/Database/Bytes.antt =====
-- Texts as bytes and back. The names of Kubernetes are ASCII, and so are the random texts.
use Prim.Native.Nat.{Ordering, compare}
use Prim.Native.Char.{Char, code, nul}
use dbaas_controller.Prelude.{ℕ, ◌≡◌, refl, String, List, [], ◌∷◌}

unfoldable pub bytes_of : String → List ℕ
bytes_of String.[] = []
bytes_of (String.◌∷◌ c s) = code c ∷ bytes_of s

char_if : (n : ℕ) (o : Ordering) → compare n 55296 ≡ o → Char
char_if n Ordering.lt e = Char.char n (rw e tt)
char_if n _ e = nul

unfoldable pub text_of : List ℕ → String
unfolding char_if
text_of [] = ""
text_of (b ∷ bs) = String.◌∷◌ (char_if b (compare b 55296) refl) (text_of bs)

there_and_back : text_of (bytes_of "shop_x7") ≡ "shop_x7"
unfolding text_of bytes_of
there_and_back = refl
