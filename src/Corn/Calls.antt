-- ===== src/Corn/Calls.antt =====
-- go/usercorn.go: system calls, and the hooks that are told of them. What the kernels know of a system
-- call (`co.Lookup`, which reflects on their methods) is an argument; `W` is all that a call or a hook may
-- read and change, and `tell` what a hook does with what it is told. A hook is known by a number, and none
-- changes the list of hooks. The lines that are printed are left out.
pub mod Order
use usercorn.Base.{
  map, ℕ, suc, ◌≡◌, refl, ◌∙◌, ap, Bool, true, false, List, [], ◌∷◌, ◌++◌, Option, none, some, ◌==◌,
  if◌then◌else◌, All,
}

module _ (W : Type 0) where
  pub record Sys : Type 0 where
    pub arity : ℕ
    pub trace : List ℕ → W → List ℕ
    pub trace_ret : List ℕ → ℕ → W → List ℕ
    pub call : List ℕ → W → ℕ × W

pub data Report : Type 0 where
  before : (hook num : ℕ) (args desc : List ℕ) → Report
  after : (hook num : ℕ) (args : List ℕ) (ret : ℕ) (desc : List ℕ) → Report

-- The kernels, the hooks, and the number of the next hook.
pub record Calls (K : Type 0) : Type 0 where
  pub kernels : List K
  pub sys_hooks : List ℕ
  pub next : ℕ

pub data Outcome (W : Type 0) : Type 0 where
  returned : ℕ → W → Outcome W
  failed : W → Outcome W
  panicked : Outcome W

module _ {K : Type 0} where
  unfoldable pub hook_sys_add : Calls K → Calls K × ℕ
  hook_sys_add c =
      (record c { sys_hooks = c.sys_hooks ++ (c.next ∷ []); next = suc c.next }, c.next)

  unfoldable pub add_kernel : Calls K → K → (first : Bool) → Calls K
  add_kernel c k first = record c {
    kernels = if first then k ∷ c.kernels else c.kernels ++ (k ∷ []);
  }

unfoldable pub without : List ℕ → ℕ → List ℕ
without [] hook = []
without (v ∷ hooks) hook = let rest = without hooks hook in if v == hook then rest else v ∷ rest

unfoldable pub hook_sys_del : {K : Type 0} → Calls K → ℕ → Calls K
hook_sys_del c hook = record c { sys_hooks = without c.sys_hooks hook }

module _ {W : Type 0} (tell : Report → W → W) where
  unfoldable pub all_before : List ℕ → (num : ℕ) → (args desc : List ℕ) → W → W
  all_before [] num args desc w = w
  all_before (v ∷ hooks) num args desc w =
      all_before hooks num args desc (tell (before v num args desc) w)

  unfoldable pub all_after : List ℕ → (num : ℕ) → List ℕ → (ret : ℕ) → List ℕ → W → W
  all_after [] num args ret desc w = w
  all_after (v ∷ hooks) num args ret desc w =
      all_after hooks num args ret desc (tell (after v num args ret desc) w)

module _ {K W : Type 0} (tell : Report → W → W) (lookup : K → List ℕ → Option (Sys W))
    (stub block : Bool) where
  abbrev run_call : List ℕ → (num : ℕ) → Sys W → Option (List ℕ) → W → Outcome W
  run_call hooks num sys none w = failed w
  run_call hooks num sys (some args) w =
      let w1 = all_before tell hooks num args (sys.trace args w) w in
      let (ret, w2) = sys.call args w1 in
      returned ret (all_after tell hooks num args ret (sys.trace_ret args ret w2) w2)

  abbrev missing : W → Outcome W
  missing w = if stub then returned 0 w else panicked

  abbrev call_found :
      Outcome W → List ℕ → (num : ℕ) → (ℕ → Option (List ℕ)) → W → Option (Sys W) → Outcome W
  call_found rest hooks num get_args w none = rest
  call_found rest hooks num get_args w (some sys) = run_call hooks num sys (get_args sys.arity) w

  -- The loop over the kernels.
  unfoldable pub call_first :
      List K → List ℕ → (num : ℕ) → List ℕ → (ℕ → Option (List ℕ)) → W → Outcome W
  call_first [] hooks num name get_args w = missing w
  call_first (k ∷ ks) hooks num name get_args w =
      call_found (call_first ks hooks num name get_args w) hooks num get_args w (lookup k name)

  abbrev is_empty : List ℕ → Bool
  is_empty [] = true
  is_empty (c ∷ name) = false

  unfoldable pub syscall : Calls K → (num : ℕ) → List ℕ → (ℕ → Option (List ℕ)) → W → Outcome W
  syscall c num name get_args w =
      let run =
        if block then returned 0 w else call_first c.kernels c.sys_hooks num name get_args w in
      if is_empty name then (if stub then run else panicked) else run
