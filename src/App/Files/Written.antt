-- ===== src/App/Files/Written.antt =====
-- What a path holds after it was written.
use frog_quant.Prelude.{◌≡◌, refl, true, some, [], ◌∷◌, Text, arith, text_eq, ==_self}
use frog_quant.App.Files.{Disk, write_file}

text_eq_self : (s : Text) → text_eq s s ≡ true
unfolding text_eq
text_eq_self [] = refl
text_eq_self (c ∷ s) = ground (arith, ==_self c, text_eq_self s)

pub write_file-content :
    (disk : Disk) (path text : Text)
    → disk.is_writable path ≡ true
    → (write_file path text disk).0.content path ≡ some text
unfolding write_file
write_file-content disk path text h = ground (arith, text_eq_self path)
