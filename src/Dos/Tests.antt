-- ===== src/Dos/Tests.antt =====
-- The theorems about the calls of DOS at concrete inputs.
use usercorn.Base.{ℕ, zero, suc, ◌≡◌, refl, List, [], ◌∷◌, none, some, false, arith}
use usercorn.Cpu.Page.{contains}
use usercorn.Cpu.Mem.{Mem}
use usercorn.Cpu.PackUint.{little}
use usercorn.Cpu.Space.{cell, cell_in, IsRun}
use usercorn.Cpu.Space.Access.{Holds}
use usercorn.Dos.{
  Dos, Host, Moved, found, out_of_fuel, get_fd, free_from, close, read, write, open_file, new_fds,
  read_until_char,
}
use usercorn.Dos.Fds.{Assigned, get_fd-Assigned}
use usercorn.Dos.Calls.{Closed, Succeeds, close-open_file, unknown_fd_lem}
use usercorn.Dos.Scanning.{read_until_char-found, read_until_char-endless}

-- A host that opens every file as 77, fails at all else, and keeps the descriptors it is given.
abbrev refusal : Moved
refusal = record { count = 0xffff; bytes = []; success = false }

abbrev host : Host (List ℕ)
host = record {
  open_file = λ s name mode perm. (s, some 77);
  close_file = λ s fd. (fd ∷ s, false);
  read_file = λ s fd len. (fd ∷ s, refusal);
  write_file = λ s fd p. (fd ∷ s, refusal);
  unlink_file = λ s name. (s, false);
  scan_char = λ s. (s, 0);
  print_char = λ s c. s;
}

abbrev memory : Mem
memory = record {
  bits = 16;
  mask = 0xffff;
  hooked = false;
  pages =
      record {
        addr = 256;
        size = 3;
        prot = 3;
        bytes = b'h' ∷ b'i' ∷ b'$' ∷ [];
        desc = [];
        file = none;
      }
      ∷ [];
  order = little;
}

abbrev kernel : Dos (List ℕ)
kernel = record { fds = new_fds; ax = 0; flags = 1; mem = memory; host = []; exit = none }

get_fd_third : get_fd ((0, 0) ∷ (2, 5) ∷ []) 77 ≡ ((1, 77) ∷ (0, 0) ∷ (2, 5) ∷ [], some 1)
unfolding get_fd free_from
get_fd_third = refl

get_fd-Assigned_example : Assigned new_fds 77 (get_fd new_fds 77)
get_fd-Assigned_example = get_fd-Assigned new_fds 77

close-open_file_example : Closed host kernel [] 77 (open_file host kernel [] 0)
close-open_file_example = close-open_file host kernel [] 0 [] 77 refl (3, (omega arith, refl))

memory-IsRun : IsRun 0 memory.pages 1000
memory-IsRun = (omega arith, record { fits = omega arith; filled = refl }, omega arith)

behind : cell memory.pages 259 ≡ none
unfolding cell cell_in contains
behind = refl

memory-Holds : Holds memory.pages 256 (b'h' ∷ b'i' ∷ b'$' ∷ [])
unfolding cell cell_in contains
memory-Holds zero h = refl
memory-Holds (suc zero) h = refl
memory-Holds (suc (suc zero)) h = refl
memory-Holds (suc (suc (suc k))) h = absurd (omega arith)

read_until_char-found_example : read_until_char 4 3 memory 256 b'$' ≡ found (b'h' ∷ b'i' ∷ [])
read_until_char-found_example =
    read_until_char-found 4 memory 0 1000 256 memory-IsRun (omega arith, tt) (b'h' ∷ b'i' ∷ []) b'$'
      3 (refl, (refl, tt)) memory-Holds (omega arith) (omega arith)

read_until_char-endless_example : read_until_char 4 1000 memory 256 b'#' ≡ out_of_fuel
read_until_char-endless_example =
    read_until_char-endless 4 memory 0 1000 256 memory-IsRun (omega arith, tt)
      (b'h' ∷ b'i' ∷ b'$' ∷ []) b'#' 1000 (refl, (refl, (refl, tt))) memory-Holds behind
      (ground arith) (omega arith)

unknown_fd_lem_example :
    Succeeds (close host kernel 9)
    × ((close host kernel 9).ax ≡ 0)
    × ((close host kernel 9).host ≡ (0xffff ∷ []))
    × Succeeds ((read host kernel 9 256 1).0)
    × ((read host kernel 9 256 1).0.host ≡ (9 ∷ []))
    × Succeeds ((write host 4 kernel 9 256 1).0)
    × ((write host 4 kernel 9 256 1).0.host ≡ (0 ∷ []))
unknown_fd_lem_example = unknown_fd_lem host 4 kernel 9 256 1 refl
