-- ===== src/Examples/OfLines.antt =====
-- Lines that are read from stream 50.
use pdwfs.Base.{some, ℕ, ◌≤◌, ◌≡◌, ◌≢◌, refl, false, inl, [], ◌∷◌, Bytes, arith, suc, true}
use pdwfs.Base.Int.{pos}
use pdwfs.Machine.{World, done, faults}
use pdwfs.Machine.Symbol.{Symbol, symbol_id}
use pdwfs.Machine.Host.{Arg, Machine}
use pdwfs.Intercept.Lines.Last.{count_or_end}
use pdwfs.Intercept.Lines.Rest.{getdelim-rest}
use pdwfs.Intercept.Lines.LentRest.{result, fgets-rest}
use pdwfs.Machine.Access.{load}
use pdwfs.Registers.{is_std_fd, fd_not_managed, stream_not_managed}
use pdwfs.Intercept.Lines.{getdelim, fgets}
use pdwfs.Intercept.Lines.Reads.{IsLine}
use pdwfs.Intercept.Lines.Line.{getdelim-line}
use pdwfs.Intercept.Lines.Lent.{fgets-line, fgets-faults}
use pdwfs.Instance.{File, one_file_env, open_world}

managed : (bs : Bytes) → stream_not_managed 50 (open_world bs) ≡ some false
unfolding stream_not_managed fd_not_managed is_std_fd
managed bs = refl

ab-IsLine : IsLine 10 (b'a' ∷ b'b' ∷ [])
ab-IsLine = (omega arith, λ e. cc, (omega arith, λ e. cc, tt))

-- The line `ab` and its newline, before a `c`.
abbrev text : Bytes
text = b'a' ∷ b'b' ∷ 10 ∷ b'c' ∷ []

abbrev read_to : ℕ → File
read_to n = record { bytes = text; offset = n }

getdelim-line_example :
    (w' : World) × (getdelim 3 8 9 (pos 10) 50 (open_world text) ≡ done (pos 3) w')
    × (load w'.machine.mem (w'.machine.words 8) 4 ≡ b'a' ∷ b'b' ∷ 10 ∷ 0 ∷ [])
    × (4 ≤ w'.machine.words 9)
    × (w'.go ≡ read_to 3)
getdelim-line_example =
    getdelim-line 50 (λ p n s e. cc) (λ p n s. refl) (λ n s e. cc) (λ n s. refl) 10 (omega arith) 3
      8 9 (b'a' ∷ b'b' ∷ []) (open_world text) (read_to 3) (managed text) (λ e. cc) (inl refl)
      ab-IsLine (omega arith) (omega arith)
      (read_to 1, refl, (read_to 2, refl, (read_to 3, refl, refl)))

fgets-line_example :
    (w' : World) × (fgets 3 1000 (pos 6) 50 (open_world text) ≡ done (pos 1000) w')
    × (load w'.machine.mem 1000 4 ≡ b'a' ∷ b'b' ∷ 10 ∷ 0 ∷ [])
    × (w'.go ≡ read_to 3)
fgets-line_example =
    fgets-line 3 1000 6 50 (b'a' ∷ b'b' ∷ []) (open_world text) (read_to 3) (managed text) (λ e. cc)
      (omega arith) ab-IsLine (omega arith) (omega arith)
      (read_to 1, refl, (read_to 2, refl, (read_to 3, refl, refl)))

-- With a buffer of five bytes, the same line does not fit.
fgets-faults_example : fgets 3 1000 (pos 5) 50 (open_world text) ≡ faults
fgets-faults_example =
    fgets-faults 3 1000 5 50 b'a' (b'b' ∷ []) (open_world text) (read_to 2) (managed text) (λ e. cc)
      (omega arith) ab-IsLine refl (omega arith) (read_to 1, refl, (read_to 2, refl, refl))

-- A file that ends without a newline.
abbrev rest : ℕ → File
rest n = record { bytes = b'a' ∷ b'b' ∷ []; offset = n }

abbrev feof_at : ℕ
feof_at = suc (symbol_id Symbol.feof)

tells :
    (m : Machine ℕ)
    → (m.flags 50).eof_seen ≡ true
    → (one_file_env.libc.invoke feof_at (Arg.ptr 50 ∷ []) m).0 ≢ pos 0
unfolding symbol_id
tells m h = rw h (λ e. cc)

getdelim-rest_example :
    (w' : World) × (getdelim 3 8 9 (pos 10) 50 (open_world (b'a' ∷ b'b' ∷ []))
      ≡ done (count_or_end 2) w')
    × (load w'.machine.mem (w'.machine.words 8) 2 ≡ b'a' ∷ b'b' ∷ [])
    × (w'.go ≡ rest 2)
getdelim-rest_example =
    getdelim-rest 50 feof_at refl (λ e. cc) tells (λ m. refl) (λ p n s e. cc) (λ p n s. refl)
      (λ n s e. cc) (λ n s. refl) 10 (omega arith) 3 8 9 (b'a' ∷ b'b' ∷ [])
      (open_world (b'a' ∷ b'b' ∷ [])) (rest 2) (rest 2) [] (managed _) (inl refl) (λ e. cc)
      (inl refl) ab-IsLine (omega arith) (omega arith) (rest 1, refl, (rest 2, refl, refl)) refl

abbrev left : Bytes
left = b'a' ∷ b'b' ∷ []

fgets-rest_example :
    (w' : World) × (fgets 3 1000 (pos 6) 50 (open_world left) ≡ done (result 1000 left) w')
    × (left ≢ [] → load w'.machine.mem 1000 3 ≡ b'a' ∷ b'b' ∷ 0 ∷ [])
    × (w'.go ≡ rest 2)
fgets-rest_example =
    fgets-rest 50 feof_at refl (λ e. cc) tells (λ m. refl) 3 1000 6 left (open_world left) (rest 2)
      (rest 2) [] (managed _) (inl refl) (λ e. cc) (omega arith) ab-IsLine (omega arith)
      (omega arith) (rest 1, refl, (rest 2, refl, refl)) refl
