-- ===== src/Posix/Start.antt =====
-- go/kernel/posix/kernel.go: `StackInit`, as a whole.
use usercorn.Posix.{env_pushed}
use usercorn.Posix.{push_name}
use usercorn.Posix.{args_pushed}
use usercorn.Base.{
  ℕ, ◌+◌, ◌-◌, ◌*◌, ◌≤◌, ◌<◌, ◌%◌, ◌≡◌, refl, ◌∙◌, subst, Bool, true, List, [], ◌∷◌, ◌++◌, some,
  length, replicate, arith, inl, inr, length-append,
}
use usercorn.Cpu.PackUint.{ByteOrder, IsSize}
use usercorn.Cpu.Space.Access.{Holds}
use usercorn.Task.Stack.{Machine, push_bytes, push}
use usercorn.Posix.{c_string, push_strings, push_init, stack_init}
use usercorn.Posix.Push.{OnStack, SameFrom, Pushed, push_bytes-Pushed}
use usercorn.Posix.Words.{
  word, words, length-word, length-words, pack_addr-word, pack_addrs-words, pack_uint-word,
}
use usercorn.Posix.Layout.{
  StringsAt-same, SameFrom-trans, StringsAt, total, AllPushed, push_strings-AllPushed,
}
use usercorn.Posix.Init.{Init, push_init-Init}

module _ (prot_exec sp lo hi base : ℕ) (order : ByteOrder) where
  -- The name of the program on the stack.
  abbrev pub first : List (List ℕ) → ℕ
  first [] = 0
  first (s ∷ ss) = length (c_string s)

  record Named (args : List (List ℕ)) (m : Machine) (v : ℕ) : Type 0 where
    machine : Machine
    pushed : (rest : Machine → Machine × Bool) → push_name prot_exec sp args rest m ≡ rest machine
    stack : OnStack sp lo hi base order machine (v - first args)
    same : SameFrom v m machine

  push_name-Named :
      (args : List (List ℕ)) (m : Machine) (v : ℕ)
      → OnStack sp lo hi base order m v
      → base + first args ≤ v
      → Named args m v
  push_name-Named [] m v s l = record {
    machine = m;
    pushed = λ rest. refl;
    stack = subst (OnStack sp lo hi base order m) (omega arith) s;
    same = λ x b. refl;
  }
  push_name-Named (t ∷ args) m v s l =
      let some_byte : 0 < length (c_string t) = omega (arith, length-append t (0 ∷ [])) in
      let one = push_bytes-Pushed prot_exec sp lo hi base order m v (c_string t) s some_byte l in
      record {
        machine = one.machine;
        pushed = λ rest. rw one.pushed refl;
        stack = one.stack;
        same = one.same;
      }

  module _ (bsz : ℕ) (size : IsSize bsz) where
    size-le : (0 < bsz) × (bsz ≤ 8)
    size-le = elim size [
      | inl e ↦ (omega arith, omega arith)
      | inr (inl e) ↦ (omega arith, omega arith)
      | inr (inr (inl e)) ↦ (omega arith, omega arith)
      | inr (inr (inr e)) ↦ (omega arith, omega arith)
    ]

    push-word :
        (m : Machine) (n : ℕ)
        → m.cpu.order ≡ order
        → push prot_exec sp bsz m n ≡ push_bytes prot_exec sp m (word order bsz n)
    unfolding push
    push-word m n e =
        rw (e, pack_uint-word order bsz size n (replicate 8 0) (omega (arith, size-le))) refl

    -- The bytes at the stack pointer: the number of the arguments, the addresses of the arguments
    -- and of the environment, each list with a word of zeros behind it.
    abbrev pub init_bytes : (argv envp : List ℕ) → List ℕ
    init_bytes argv envp =
        word order bsz (length argv) ++ (words order bsz argv ++ words order bsz envp)

    length-init_bytes :
        (argv envp : List ℕ) → length (init_bytes argv envp) ≡ bsz * (3 + length argv + length envp)
    length-init_bytes argv envp = omega (
      arith,
      length-append (word order bsz (length argv)) (words order bsz argv ++ words order bsz envp),
      length-append (words order bsz argv) (words order bsz envp),
      length-word order bsz size (length argv),
      length-words order bsz size argv,
      length-words order bsz size envp,
    )

    push_words-init :
        (auxv argv envp : List ℕ) (m : Machine)
        → m.cpu.order ≡ order
        → args_pushed prot_exec sp bsz auxv envp (m, some argv)
          ≡ push_init prot_exec sp auxv (init_bytes argv envp) m
    push_words-init auxv argv envp m e =
        rw
          (
            e,
            pack_addr-word order bsz size (length argv) size-le.1,
            pack_addrs-words order bsz size argv,
            pack_addrs-words order bsz size envp,
          )
          refl

    -- What `StackInit` leaves: the stack pointer at `low`, the words there, the table of the
    -- auxiliary vector behind them, and the texts of the arguments and the environment at the
    -- addresses of the words.
    pub record Started (args env : List (List ℕ)) (auxv : List ℕ) (m : Machine) (v : ℕ)
        (r : Machine × Bool) : Type 0 where
      pub machine : Machine
      pub low : ℕ
      pub argv : List ℕ
      pub envp : List ℕ
      pub done : r ≡ (machine, true)
      pub at : machine.regs.vals sp ≡ some low
      pub init : Holds machine.cpu.pages low (init_bytes argv envp)
      pub table : Holds machine.cpu.pages (low + length (init_bytes argv envp)) auxv
      pub args_at : StringsAt low machine.cpu.pages argv args
      pub env_at : StringsAt low machine.cpu.pages envp env
      pub even : (low + length auxv) % 16 ≡ 0
      pub same : SameFrom v m machine

    -- The bytes that `StackInit` needs at most.
    abbrev pub needed : (args env : List (List ℕ)) → (auxv : List ℕ) → ℕ
    needed args env auxv =
        bsz
        + first args
        + total env
        + total args
        + 31
        + length auxv
        + bsz * (3 + length args + length env)

    -- The parts of the stack, put together.
    module _ (args env : List (List ℕ)) (auxv : List ℕ) (m : Machine) (v : ℕ)
        (o : m.cpu.order ≡ order)
        (top : Pushed prot_exec sp lo hi base order m v (word order bsz 0)) (v1 : ℕ)
        (name : Named args top.machine v1) (v2 : ℕ)
        (envs : AllPushed prot_exec sp lo hi base order name.machine v2 env) (v3 : ℕ)
        (texts : AllPushed prot_exec sp lo hi base order envs.machine v3 args) (v4 : ℕ)
        (last : Init prot_exec sp lo hi base order texts.machine v4 auxv
          (init_bytes texts.addrs envs.addrs)
          (push_init prot_exec sp auxv (init_bytes texts.addrs envs.addrs) texts.machine))
        (order_eq : texts.machine.cpu.order ≡ order) where
      stack_init-eq : stack_init prot_exec sp bsz args env auxv m ≡ (last.machine, true)
      unfolding stack_init
      stack_init-eq =
          rw
            (
              push-word m 0 o,
              top.pushed,
              name.pushed
                  (λ m'. env_pushed prot_exec sp bsz args auxv (push_strings prot_exec sp env m')),
              envs.pushed,
              texts.pushed,
            )
            (push_words-init auxv texts.addrs envs.addrs texts.machine order_eq ∙ last.done)

      same-all : v1 ≤ v → v2 ≤ v → v3 ≤ v → v4 ≤ v → SameFrom v m last.machine
      same-all a b c d = λ x l.
          last.same x (omega arith)
          ∙ texts.same x (omega arith)
          ∙ envs.same x (omega arith)
          ∙ name.same x (omega arith)
          ∙ top.same x l

      started :
          v1 ≤ v
          → v2 ≤ v
          → v3 ≤ v
          → v4 ≤ v3 - total args
          → v3 - total args ≤ v4
          → v3 ≤ v2 - total env
          → Started args env auxv m v (stack_init prot_exec sp bsz args env auxv m)
      started a b c d e f = record {
        machine = last.machine;
        low = last.low;
        argv = texts.addrs;
        envp = envs.addrs;
        done = stack_init-eq;
        at = last.stack.at;
        init = last.words;
        table = last.table;
        args_at =
            StringsAt-same texts.machine last.machine v4 (v3 - total args) last.low texts.addrs args
              last.same d (omega (arith, last.below)) texts.strings;
        env_at =
            StringsAt-same envs.machine last.machine v3 (v2 - total env) last.low envs.addrs env
              (SameFrom-trans envs.machine texts.machine last.machine v4 v3 (omega arith) texts.same
                last.same)
              f (omega (arith, last.below)) envs.strings;
        even = last.even;
        same = same-all a b c (omega arith);
      }

    -- On well-formed memory that is mapped for as many bytes below the stack pointer as are needed,
    -- and for words of 1, 2, 4 or 8 bytes, `StackInit` succeeds: at the stack pointer are the
    -- number of the arguments, the addresses of the arguments and a word 0, and the addresses of
    -- the environment and a word 0; behind them is the auxiliary vector; at the addresses are the
    -- texts, with a byte 0 behind each. The stack pointer is a multiple of 16 but for the length of
    -- the auxiliary vector, and all that was at the old stack pointer and above is as it was.
    pub stack_init-Started :
        (args env : List (List ℕ)) (auxv : List ℕ) (m : Machine) (v : ℕ)
        → OnStack sp lo hi base order m v
        → base + needed args env auxv ≤ v
        → Started args env auxv m v (stack_init prot_exec sp bsz args env auxv m)
    stack_init-Started args env auxv m v s l =
        let zero_word = length-word order bsz size 0 in
        let top =
          push_bytes-Pushed prot_exec sp lo hi base order m v (word order bsz 0) s
            (omega (arith, zero_word, size-le)) (omega (arith, zero_word)) in
        let v1 = v - length (word order bsz 0) in
        let name = push_name-Named args top.machine v1 top.stack (omega (arith, zero_word)) in
        let v2 = v1 - first args in
        let envs =
          push_strings-AllPushed prot_exec sp lo hi base order env name.machine v2 name.stack
            (omega (arith, zero_word)) in
        let v3 = v2 - total env in
        let texts =
          push_strings-AllPushed prot_exec sp lo hi base order args envs.machine v3 envs.stack
            (omega (arith, zero_word)) in
        let v4 = v3 - total args in
        let bytes = init_bytes texts.addrs envs.addrs in
        let len = length-init_bytes texts.addrs envs.addrs in
        let words : bsz * (3 + length texts.addrs + length envs.addrs)
            ≡ bsz * (3 + length args + length env) =
          rw (texts.counted, envs.counted) refl in
        let last =
          push_init-Init prot_exec sp lo hi base order texts.machine v4 auxv bytes texts.stack
            (omega (arith, len, size-le)) (omega (arith, zero_word, len, words)) in
        started args env auxv m v s.order_eq top v1 name v2 envs v3 texts v4 last
          texts.stack.order_eq (omega arith) (omega arith) (omega arith) (omega arith) (omega arith)
          (omega arith)
