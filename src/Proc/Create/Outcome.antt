-- ===== src/Proc/Create/Outcome.antt =====
-- Every outcome of `fork` and `clone` of Xv6-Threads/src/proc.c.
use os_wsl.Prelude.{
  ℕ, zero, suc, ap, sym, ◌∙◌, ◌≡◌, ◌≢◌, refl, ◌⊎◌, inl, inr, true, false, Option, none, some, List,
  [], ◌∷◌, arith, take, get_or, set, minus_one, ◌==◌, Option-cases,
}
use os_wsl.Proc.{Proc, runnable, proc_at, find_unused, is_unused}
use os_wsl.Proc.Slots.{
  proc_at-set, proc_at-set_self, proc_at-set_ne, find_unused-some, find_unused-ne,
}
use os_wsl.Proc.Services.{Services, with_state}
use os_wsl.Proc.Create.{Kernel, claim, dup_files, dup_cwd, push_args, below, fork, clone}
use os_wsl.Proc.Create.Made.{
  fresh, child_of, forked, cloned, fork_full, fork_no_stack, fork_no_copy, fork-eq, clone_full,
  clone_no_stack, clone-eq,
}

-- The table is as before, but for free slots that are free still.
abbrev pub SameUses : List Proc → List Proc → Type 0
SameUses t u =
    (j : ℕ)
    → (proc_at u j ≡ proc_at t j)
      ⊎ ((is_unused (proc_at t j).state ≡ true) × (is_unused (proc_at u j).state ≡ true))

set-SameUses :
    (t : List Proc) (i : ℕ) (p : Proc)
    → find_unused t ≡ some i
    → is_unused p.state ≡ true
    → SameUses t (set t i p)
set-SameUses t i p free h j = ground (arith, proc_at-set t i j p, find_unused-some t i free)

-- An open descriptor of the parent, and otherwise what the slot had.
abbrev pub inherited : Option ℕ → Option ℕ → Option ℕ
inherited none old = old
inherited (some f) old = some f

-- The files that a process has open, once for each descriptor.
abbrev pub open_files : List (Option ℕ) → List ℕ
open_files [] = []
open_files (none ∷ from) = open_files from
open_files (some f ∷ from) = f ∷ open_files from

module _ (v : Services) where
  open v use {State, kalloc, kfree, copyuvm, store, filedup, idup}

  -- `filedup` of each of the files, in order, and `idup` of the directory.
  abbrev pub filedups : List ℕ → State → State
  filedups [] s = s
  filedups (f ∷ fs) s = filedups fs (filedup f s)

  abbrev pub idups : Option ℕ → State → State
  idups none s = s
  idups (some ip) s = idup ip s

  dup_files-inherited :
      (from to : List (Option ℕ)) (s : State) (fd : ℕ)
      → get_or (dup_files v from to s).0 fd none
        ≡ inherited (get_or from fd none) (get_or to fd none)
  unfolding dup_files
  dup_files-inherited [] to s fd = refl
  dup_files-inherited (none ∷ from) [] s zero = refl
  dup_files-inherited (none ∷ from) [] s (suc fd) = dup_files-inherited from [] s fd
  dup_files-inherited (none ∷ from) (f ∷ to) s zero = refl
  dup_files-inherited (none ∷ from) (f ∷ to) s (suc fd) = dup_files-inherited from to s fd
  dup_files-inherited (some f ∷ from) [] s zero = refl
  dup_files-inherited (some f ∷ from) [] s (suc fd) = dup_files-inherited from [] (filedup f s) fd
  dup_files-inherited (some f ∷ from) (g ∷ to) s zero = refl
  dup_files-inherited (some f ∷ from) (g ∷ to) s (suc fd) =
      dup_files-inherited from to (filedup f s) fd

  dup_files-filedups :
      (from to : List (Option ℕ)) (s : State)
      → (dup_files v from to s).1 ≡ filedups (open_files from) s
  unfolding dup_files
  dup_files-filedups [] to s = refl
  dup_files-filedups (none ∷ from) [] s = dup_files-filedups from [] s
  dup_files-filedups (none ∷ from) (f ∷ to) s = dup_files-filedups from to s
  dup_files-filedups (some f ∷ from) [] s = dup_files-filedups from [] (filedup f s)
  dup_files-filedups (some f ∷ from) (g ∷ to) s = dup_files-filedups from to (filedup f s)

  dup_cwd-idups : (o : Option ℕ) (s : State) → dup_cwd v o s ≡ idups o s
  unfolding dup_cwd
  dup_cwd-idups none s = refl
  dup_cwd-idups (some ip) s = refl

  module _ (cur : ℕ) (k : Kernel State) where
    -- What a new process in slot `i` has of its parent.
    pub record Inherits (i : ℕ) (r : ℕ × Kernel State) : Type 0 where
      pub slot : find_unused k.procs ≡ some i
      pub answer : r.0 ≡ k.nextpid
      pub pid : (proc_at r.1.procs i).pid ≡ k.nextpid
      pub state : (proc_at r.1.procs i).state ≡ runnable
      pub parent : (proc_at r.1.procs i).parent ≡ some cur
      pub sz : (proc_at r.1.procs i).sz ≡ (proc_at k.procs cur).sz
      pub cwd : (proc_at r.1.procs i).cwd ≡ (proc_at k.procs cur).cwd
      pub name : (proc_at r.1.procs i).name ≡ take 15 (proc_at k.procs cur).name
      pub files :
          (fd : ℕ)
          → get_or (proc_at r.1.procs i).ofile fd none
            ≡ inherited
                (get_or (proc_at k.procs cur).ofile fd none)
                (get_or (proc_at k.procs i).ofile fd none)
      pub others : (j : ℕ) → j ≢ i → proc_at r.1.procs j ≡ proc_at k.procs j

    -- A process of its own: a new kernel stack and a copy of the address space.
    pub record Forks (i page pgdir : ℕ) (s s' : State) (r : ℕ × Kernel State) : Type 0 where
      pub stack : kalloc k.env ≡ (some page, s)
      pub copy : copyuvm (proc_at k.procs cur).pgdir (proc_at k.procs cur).sz s ≡ (some pgdir, s')
      pub inherits : Inherits i r
      pub memory : ((proc_at r.1.procs i).kstack ≡ page) × ((proc_at r.1.procs i).pgdir ≡ pgdir)
      pub tickets : (proc_at r.1.procs i).tickets ≡ (proc_at k.procs cur).tickets
      pub registers : (proc_at r.1.procs i).tf ≡ record ((proc_at k.procs cur).tf) { eax = 0 }
      pub env :
          r.1.env
          ≡ idups (proc_at k.procs cur).cwd (filedups (open_files (proc_at k.procs cur).ofile) s')

    -- Nothing was taken, kalloc failed, or the kernel stack has been given back.
    abbrev pub GaveBack : State → Type 0
    GaveBack e =
        (e ≡ k.env)
        ⊎ (kalloc k.env ≡ (none, e))
        ⊎ ((page : ℕ) × (s s' : State) × ((kalloc k.env ≡ (some page, s))
              × (copyuvm (proc_at k.procs cur).pgdir (proc_at k.procs cur).sz s ≡ (none, s'))
              × (e ≡ kfree page s')))

    pub record Fails (r : ℕ × Kernel State) : Type 0 where
      pub answer : r.0 ≡ minus_one
      pub table : SameUses k.procs r.1.procs
      pub env : GaveBack r.1.env

    fork-made :
        (i page pgdir : ℕ) (s s' : State)
        → find_unused k.procs ≡ some i
        → (i == cur) ≡ false
        → kalloc k.env ≡ (some page, s)
        → copyuvm (proc_at k.procs cur).pgdir (proc_at k.procs cur).sz s ≡ (some pgdir, s')
        → Forks i page pgdir s s' (fork v cur k)
    unfolding claim
    fork-made i page pgdir s s' free ne got made =
        let parent = proc_at k.procs cur in
        let old = proc_at k.procs i in
        let files = dup_files v parent.ofile old.ofile s' in
        let c = child_of v parent files.0 (forked v cur parent pgdir (fresh v k i page)) in
        let (inside, unused_i) = find_unused-some k.procs i free in
        let here : proc_at (set k.procs i c) i ≡ c = proc_at-set_self k.procs i c inside in
        rw (fork-eq v cur i k free ne page pgdir s s' got made) (record {
          stack = got;
          copy = made;
          inherits = record {
            slot = free;
            answer = refl;
            pid = ap (λ (p : Proc). p.pid) here;
            state = ap (λ (p : Proc). p.state) here;
            parent = ap (λ (p : Proc). p.parent) here;
            sz = ap (λ (p : Proc). p.sz) here;
            cwd = ap (λ (p : Proc). p.cwd) here;
            name = ap (λ (p : Proc). p.name) here;
            files = λ fd.
                ap (λ (p : Proc). get_or p.ofile fd none) here
                ∙ dup_files-inherited parent.ofile old.ofile s' fd;
            others = λ j other. proc_at-set_ne k.procs i j c (λ e. other (sym e));
          };
          memory = (ap (λ (p : Proc). p.kstack) here, ap (λ (p : Proc). p.pgdir) here);
          tickets = ap (λ (p : Proc). p.tickets) here;
          registers = ap (λ (p : Proc). p.tf) here;
          env =
              dup_cwd-idups parent.cwd files.1
              ∙ ap (idups parent.cwd) (dup_files-filedups parent.ofile old.ofile s');
        })

    -- A `fork` by a process in use either makes a child or fails. The child is RUNNABLE in the first free
    -- slot under the next pid, which is returned; it has its own kernel stack and copy of the address
    -- space, and the size, tickets, registers (with 0 in eax), directory, name and open files of the caller;
    -- each open descriptor is counted by filedup and the directory by idup, and no other slot changes. A
    -- fork that fails returns -1 and leaves every slot as it was, but for a free one that is free still; it
    -- took nothing, or gave the kernel stack back.
    pub fork_cases :
        is_unused (proc_at k.procs cur).state ≡ false
        → Fails (fork v cur k)
          ⊎ ((i page pgdir : ℕ) × (s s' : State) × Forks i page pgdir s s' (fork v cur k))
    unfolding claim
    fork_cases used = elim (Option-cases (find_unused k.procs)) [
      | inl full ↦ inl (
          rw (fork_full v cur k full)
            (record { answer = refl; table = λ j. inl refl; env = inl refl }))
      | inr (i, free) ↦
          let ne = find_unused-ne k.procs i cur free used in
          let s = (kalloc k.env).1 in
          elim (Option-cases (kalloc k.env).0) [
            | inl out ↦
                let got = with_state (kalloc k.env) out in
                inl (
                  rw (fork_no_stack v cur i k free ne s got) (record {
                    answer = refl;
                    table = set-SameUses k.procs i _ free refl;
                    env = inr (inl got);
                  }))
            | inr (page, some_page) ↦
                let got = with_state (kalloc k.env) some_page in
                let copied = copyuvm (proc_at k.procs cur).pgdir (proc_at k.procs cur).sz s in
                elim (Option-cases copied.0) [
                  | inl out ↦
                      let none_made = with_state copied out in
                      inl (
                        rw (fork_no_copy v cur i k free ne page s copied.1 got none_made) (record {
                          answer = refl;
                          table = set-SameUses k.procs i _ free refl;
                          env = inr (inr (page, s, copied.1, (got, none_made, refl)));
                        }))
                  | inr (pgdir, made) ↦ inr (
                    i,
                    page,
                    pgdir,
                    s,
                    copied.1,
                    fork-made i page pgdir s copied.1 free ne got (with_state copied made),
                  )
                ]
          ]
    ]

    module _ (fcn arg1 arg2 stack : ℕ) where
      -- The stack with the second argument on top of it, then the first, and a return address.
      abbrev pub pushed : State → State
      pushed s =
          let pgdir = (proc_at k.procs cur).pgdir in
          store pgdir (below v (below v (below v stack))) 4294967295
            (store pgdir (below v (below v stack)) arg1 (store pgdir (below v stack) arg2 s))

      -- A thread: a new kernel stack, and the address space of its parent.
      pub record Clones (i page : ℕ) (s : State) (r : ℕ × Kernel State) : Type 0 where
        pub kernel_stack : kalloc k.env ≡ (some page, s)
        pub inherits : Inherits i r
        pub memory :
            ((proc_at r.1.procs i).kstack ≡ page)
            × ((proc_at r.1.procs i).pgdir ≡ (proc_at k.procs cur).pgdir)
        pub thread : (proc_at r.1.procs i).isthread ≡ true
        pub registers : (proc_at r.1.procs i).tf ≡ record ((proc_at k.procs cur).tf) {
          eax = 0;
          esp = below v (below v (below v stack));
          eip = fcn;
        }
        pub env :
            r.1.env
            ≡ idups
                (proc_at k.procs cur).cwd
                (filedups (open_files (proc_at k.procs cur).ofile) (pushed s))

      clone-made :
          (i page : ℕ) (s : State)
          → find_unused k.procs ≡ some i
          → (i == cur) ≡ false
          → kalloc k.env ≡ (some page, s)
          → Clones i page s (clone v cur fcn arg1 arg2 stack k)
      unfolding claim push_args
      clone-made i page s free ne got =
          let parent = proc_at k.procs cur in
          let old = proc_at k.procs i in
          let files = dup_files v parent.ofile old.ofile (pushed s) in
          let c = child_of v parent files.0 (cloned v cur parent fcn stack (fresh v k i page)) in
          let (inside, unused_i) = find_unused-some k.procs i free in
          let here : proc_at (set k.procs i c) i ≡ c = proc_at-set_self k.procs i c inside in
          rw (clone-eq v cur i k free ne fcn arg1 arg2 stack page s got) (record {
            kernel_stack = got;
            inherits = record {
              slot = free;
              answer = refl;
              pid = ap (λ (p : Proc). p.pid) here;
              state = ap (λ (p : Proc). p.state) here;
              parent = ap (λ (p : Proc). p.parent) here;
              sz = ap (λ (p : Proc). p.sz) here;
              cwd = ap (λ (p : Proc). p.cwd) here;
              name = ap (λ (p : Proc). p.name) here;
              files = λ fd.
                  ap (λ (p : Proc). get_or p.ofile fd none) here
                  ∙ dup_files-inherited parent.ofile old.ofile (pushed s) fd;
              others = λ j other. proc_at-set_ne k.procs i j c (λ e. other (sym e));
            };
            memory = (ap (λ (p : Proc). p.kstack) here, ap (λ (p : Proc). p.pgdir) here);
            thread = ap (λ (p : Proc). p.isthread) here;
            registers = ap (λ (p : Proc). p.tf) here;
            env =
                dup_cwd-idups parent.cwd files.1
                ∙ ap (idups parent.cwd) (dup_files-filedups parent.ofile old.ofile (pushed s));
          })

      -- A `clone` by a process in use either makes a thread or fails. The thread is RUNNABLE in the first
      -- free slot under the next pid, which is returned; it has its own kernel stack and the page table, size,
      -- registers (with 0 in eax, the function in eip and the stack less three words in esp), directory, name
      -- and open files of the caller; the arguments and a return address are stored on its stack, each open
      -- descriptor is counted by filedup and the directory by idup, and no other slot changes. A clone that
      -- fails returns -1 and leaves every slot as it was, but for a free one that is free still.
      pub clone_cases :
          is_unused (proc_at k.procs cur).state ≡ false
          → Fails (clone v cur fcn arg1 arg2 stack k)
            ⊎ ((i page : ℕ) × (s : State) × Clones i page s (clone v cur fcn arg1 arg2 stack k))
      unfolding claim
      clone_cases used = elim (Option-cases (find_unused k.procs)) [
        | inl full ↦ inl (
            rw (clone_full v cur fcn arg1 arg2 stack k full)
              (record { answer = refl; table = λ j. inl refl; env = inl refl }))
        | inr (i, free) ↦
            let ne = find_unused-ne k.procs i cur free used in
            let s = (kalloc k.env).1 in
            elim (Option-cases (kalloc k.env).0) [
              | inl out ↦
                  let got = with_state (kalloc k.env) out in
                  inl (
                    rw (clone_no_stack v cur i k free ne fcn arg1 arg2 stack s got) (record {
                      answer = refl;
                      table = set-SameUses k.procs i _ free refl;
                      env = inr (inl got);
                    }))
              | inr (page, some_page) ↦
                  inr
                    (i, page, s, clone-made i page s free ne (with_state (kalloc k.env) some_page))
            ]
      ]
