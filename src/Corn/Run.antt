-- ===== src/Corn/Run.antt =====
-- go/usercorn.go: `Trampoline`, and what `Run` does between two runs of the cpu. `W` is the state of
-- the emulated program; what `Start` of the cpu does to it is an argument, and so is a trampoline.
use usercorn.Base.{ℕ, Bool, true, false, List, [], ◌∷◌, ◌++◌, if◌then◌else◌}

-- The trampolines that wait, and whether the cpu runs.
pub record Runner (W : Type 0) : Type 0 where
  pub running : Bool
  pub trampolines : List (W → W × Bool)
  pub world : W

module _ {W : Type 0} (stop : W → W × Bool) (get_pc get_sp : W → ℕ)
    (set_pc set_sp : ℕ → W → W) where
  -- A trampoline is called when the cpu has stopped, at once if it does not run. The Boolean is
  -- whether there was no error.
  unfoldable pub trampoline : Runner W → (W → W × Bool) → Runner W × Bool
  trampoline r fun =
      let (now, good) = fun r.world in
      let (stopped, good') = stop r.world in
      if r.running
      then (record r { trampolines = r.trampolines ++ (fun ∷ []); world = stopped }, good')
      else (record r { world = now }, good)

  -- The loop over the trampolines, up to the first error.
  abbrev after_tramp : (W → W × Bool) → W × Bool → W × Bool
  after_tramp rest (w, true) = rest w
  after_tramp rest (w, false) = (w, false)

  unfoldable pub call_tramps : List (W → W × Bool) → W → W × Bool
  call_tramps [] w = (w, true)
  call_tramps (fun ∷ funs) w = after_tramp (call_tramps funs) (fun w)

  abbrev put_back : (pc sp : ℕ) → W × Bool → W × Bool
  put_back pc sp (w, good) = (set_sp sp (set_pc pc w), good)

  abbrev tramped : Runner W → List (W → W × Bool) → Runner W × Bool
  tramped r [] = (r, true)
  tramped r (fun ∷ funs) =
      let (w, good) =
        put_back (get_pc r.world) (get_sp r.world) (call_tramps (fun ∷ funs) r.world) in
      (record r { trampolines = []; world = w }, good)

  -- What `Run` does with the trampolines when the cpu has stopped.
  unfoldable pub run_tramps : Runner W → Runner W × Bool
  run_tramps r = tramped r r.trampolines
