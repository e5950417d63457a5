-- ===== src/Corn/Shellcode/Laws.antt =====
-- go/usercorn.go: what shellcode leaves of the registers.
use usercorn.Base.{
  ℕ, ◌≡◌, refl, ◌∙◌, ap, Bool, true, false, not, ◌&&◌, ◌||◌, List, [], ◌∷◌, Option, none, some,
  length, ◌==◌, if◌then◌else◌, Bool-cases, inl, inr, arith,
}
use usercorn.Cpu.Page.{Page}
use usercorn.Cpu.Mem.{mem_write}
use usercorn.Task.{Task, mapping, mmap, mem_unmap}
use usercorn.Corn.Run.{Runner, trampoline}
use usercorn.Corn.Shellcode.{
  Env, tramp, exists, at, no_place, out_of_fuel, Machine, write_reg, write_all, saved, clobbered,
  started, run_code, run_shellcode_mapped, run_and_unmap, unmap_code, unmapped_task, code_mapped,
  run_shellcode, run_asm, placed, place_loop, Placed, run_if_mapped, set_task,
}

abbrev pub has : List ℕ → ℕ → Bool
has [] k = false
has (reg ∷ rs) k = reg == k || has rs k

-- Writing back what was saved.
write_all-saved :
    (rs : List ℕ) (before after : ℕ → ℕ) (k : ℕ)
    → write_all (saved rs before) after k ≡ (if has rs k then before k else after k)
write_all-saved [] before after k = refl
write_all-saved (reg ∷ rs) before after k =
    write_all-saved rs before (write_reg reg (before reg) after) k
    ∙ (let same : (reg == k) ≡ true → before reg ≡ before k =
          λ e. ap before (let eq : reg ≡ k = ground arith in eq) in
        elim (Bool-cases (reg == k)) [
          | inl e ↦ let eq = same e in ground (arith, e, eq)
          | inr e ↦ ground (arith, e)
        ])

module _ (env : Env) where
  run_code-regs :
      (addr : ℕ) (code : List ℕ) (set_regs : List (ℕ × ℕ)) (regs_clobbered : Option (List ℕ))
      (m : Machine) (k : ℕ)
      → has (clobbered set_regs regs_clobbered) k ≡ true
      → (run_code env addr code set_regs regs_clobbered m).0.regs k ≡ m.regs k
  unfolding run_code
  run_code-regs addr code set_regs regs_clobbered m k h =
      let after =
        (started env addr code (record m { regs = write_all set_regs m.regs })
          (mem_write m.task.cpu addr code)).0 in
      write_all-saved (clobbered set_regs regs_clobbered) m.regs after.regs k ∙ rw h refl

  unmapped-regs :
      (m : Machine) (o : Option Task) (k : ℕ) → (unmapped_task env m o).0.regs k ≡ m.regs k
  unmapped-regs m none k = refl
  unmapped-regs m (some t) k = refl

  tramp-idle :
      (r : Runner Machine) (fun : Machine → Machine × Bool)
      → r.running ≡ false
      → tramp env r fun ≡ (record r { world = (fun r.world).0 }, (fun r.world).1)
  unfolding trampoline
  tramp-idle r fun e = rw e refl

  module _ (set_regs : List (ℕ × ℕ)) (regs_clobbered : Option (List ℕ)) (k : ℕ)
      (h : has (clobbered set_regs regs_clobbered) k ≡ true) where
    run_and_unmap-regs :
        (r : Runner Machine) (addr size : ℕ) (code : List ℕ)
        → r.running ≡ false
        → (run_and_unmap env r addr size code set_regs regs_clobbered).0.world.regs k
          ≡ r.world.regs k
    unfolding run_shellcode_mapped unmap_code
    run_and_unmap-regs r addr size code e =
        let run = run_code env addr code set_regs regs_clobbered in
        let ran = (run r.world).0 in
        simp
          (tramp-idle r run e, tramp-idle (record r { world = ran }) (unmap_code env addr size) e)
          (unmapped-regs ran (mem_unmap env.fuel ran.task addr size) k
            ∙ run_code-regs addr code set_regs regs_clobbered r.world k h)

    code_mapped-regs :
        (r : Runner Machine) (code : List ℕ) (o : Option (Task × ℕ × Bool))
        → r.running ≡ false
        → (code_mapped env r code set_regs regs_clobbered o).0.world.regs k ≡ r.world.regs k
    code_mapped-regs r code none e = refl
    code_mapped-regs r code (some (t, addr, false)) e = refl
    code_mapped-regs r code (some (t, addr, true)) e =
        run_and_unmap-regs (set_task env r t) addr (length code) code e

    run_if_mapped-regs :
        (r : Runner Machine) (page : Page) (code : List ℕ) (o : Option (Task × ℕ × Bool))
        → r.running ≡ false
        → (run_if_mapped env r page code set_regs regs_clobbered o).0.world.regs k ≡ r.world.regs k
    run_if_mapped-regs r page code none e = refl
    run_if_mapped-regs r page code (some (t, addr, false)) e = refl
    run_if_mapped-regs r page code (some (t, addr, true)) e =
        run_and_unmap-regs (set_task env r t) page.addr page.size code e

    placed-regs :
        (r : Runner Machine) (p : Placed)
        → r.running ≡ false
        → (placed env r set_regs regs_clobbered p).0.world.regs k ≡ r.world.regs k
    placed-regs r (at t page code) e =
        run_if_mapped-regs (set_task env r t) page code
          (mmap env.fuel t page.addr page.size env.prot_rx true [] none) e
    placed-regs r (no_place t) e = refl
    placed-regs r out_of_fuel e = refl

    -- Where the cpu does not run, `RunShellcode` and `RunAsm` leave every register that is listed
    -- as clobbered as it was, or without a list every register that they set, whatever the code did
    -- to it and whether or not there was an error.
    pub run_shellcode-regs :
        (r : Runner Machine) (addr : ℕ) (code : List ℕ)
        → r.running ≡ false
        → ((run_shellcode env r addr code set_regs regs_clobbered).0.world.regs k ≡ r.world.regs k)
          × ((run_asm env r addr set_regs regs_clobbered).0.world.regs k ≡ r.world.regs k)
    unfolding run_shellcode run_asm
    run_shellcode-regs r addr code e =
        let here = not (addr == 0) && exists env (mapping r.world.task.mem addr (length code)) in
        (
          elim (Bool-cases here) [
            | inl taken ↦ rw taken refl
            | inr free ↦ rw free (
                code_mapped-regs r code
                  (mmap env.fuel r.world.task addr (length code) env.prot_all true env.desc none) e)
          ],
          placed-regs r (place_loop env 101 r.world.task addr) e,
        )
