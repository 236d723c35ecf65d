-- ===== src/StdTable/Writes.antt =====
-- Writing a table is writing its dictionary.
use any_vm.Base.{
  ℕ, zero, suc, ◌+◌, ◌*◌, ◌^◌, ◌≤◌, ◌<◌, ◌≡◌, refl, sym, ◌∙◌, ap, subst, ◌⊎◌, inl, inr, Bool-cases,
  none, some, List, [], ◌∷◌, ◌++◌, arith, lt→ltb, ◌==◌, length, length-set, get_elem?, set, take,
  take-suc-set, if◌then◌else◌, get_elem?-set_ne, true, false,
}
use any_vm.Errno.{AError}
use any_vm.Value.{AType, Value, Vec, Obj}
use any_vm.Growth.{grow_factor}
use any_vm.Machine.{Actor, Out, Env}
use any_vm.Safe.{IsActor}
use any_vm.Operand.{error, push}
use any_vm.Operand.Laws.{error-and_then}
use any_vm.Growable.{with_object, init_grow}
use any_vm.Growable.Args.{
  Arg, arg_at, at-Arg, check_index-Arg, check_type-Arg, IsActor-heap, Arg-heap,
}
use any_vm.Growable.Laws.{
  IsVec, contents, Holds, vec_at-Holds, Holds-with_object, with_object_twice, recapped,
  recapped-IsVec, contents-recapped, set_capacity-cases,
}
use any_vm.StdTable.{Entry, table_kind, lset, set_value, grow_full, append_entry, store_entry}
use any_vm.StdTable.Dict.{Key, Dict, lookup, put}
use any_vm.StdTable.Access.{search_for-cases, check_key-IsKey}
use any_vm.StdTable.Search.{IsKey, Reads, Reads-append}

-- The keys are those of before after a write to a table.
module _ (heap : List Obj) (h : ℕ) (v w : Vec Entry)
    (here : get_elem? heap h ≡ some (Obj.table v)) where
  apart : {s : List ℕ} → some (Obj.table v) ≡ some (Obj.string s) → ⊥
  apart e = cc e

  IsKey-set : {k : Value} {q : Key} → IsKey heap k q → IsKey (set heap h (Obj.table w)) k q
  IsKey-set IsKey.pid = IsKey.pid
  IsKey-set IsKey.integer = IsKey.integer
  IsKey-set (IsKey.text e) = IsKey.text (
      get_elem?-set_ne heap (Obj.table w) (λ same. apart (sym here ∙ ap (get_elem? heap) same ∙ e))
      ∙ e)

  Reads-set : (es : List Entry) (d : Dict) → Reads heap es d → Reads (set heap h (Obj.table w)) es d
  Reads-set [] [] reads = tt
  Reads-set [] (_ ∷ d) reads = elim reads [ ]
  Reads-set (_ ∷ es) [] reads = elim reads [ ]
  Reads-set ((k, x) ∷ es) ((q, y) ∷ d) (key, same, reads) =
      (IsKey-set key, same, Reads-set es d reads)

length-set_value : (es : List Entry) (j : ℕ) (x : Value) → length (set_value es j x) ≡ length es
length-set_value [] j x = refl
length-set_value ((k, y) ∷ es) zero x = refl
length-set_value ((k, y) ∷ es) (suc j) x = ap suc (length-set_value es j x)

take-set_value :
    (n : ℕ) (es : List Entry) (j : ℕ) (x : Value)
    → j < n
    → take n (set_value es j x) ≡ set_value (take n es) j x
take-set_value zero es j x h = elim h [ ]
take-set_value (suc n) [] j x h = refl
take-set_value (suc n) ((k, y) ∷ es) zero x h = refl
take-set_value (suc n) ((k, y) ∷ es) (suc j) x h =
    ap ((k, y) ∷◌) (take-set_value n es j x (omega arith))

-- The table with an entry behind those in use.
abbrev appended : Vec Entry → Value → Value → Vec Entry
appended v k x = record v { sz = v.sz + 1; slots = set v.slots v.sz (k, x) }

module _ (env : Env) {a : Actor} {h : ℕ} (valid : IsActor a) {k x : Value} (arg : Arg a 1 k)
    (last : Arg a 2 x) where
  append_entry_lem :
      (v : Vec Entry)
      → Holds table_kind a 0 h v
      → IsVec v
      → v.sz < v.cap
      → append_entry env (arg_at a 0) (arg_at a 1) (arg_at a 2) a
        ≡ Out.ok tt (with_object a h (Obj.table (appended v k x)))
  unfolding append_entry
  append_entry_lem v g i room = rw (vec_at-Holds env table_kind valid g) (
      rw (at-Arg env valid arg) (
        rw (at-Arg env valid last) (
          rw (lt→ltb v.sz v.cap room, lt→ltb v.sz (length v.slots) (omega (arith, i.storage)))
            refl)))

appended-IsVec : (v : Vec Entry) (k x : Value) → IsVec v → v.sz < v.cap → IsVec (appended v k x)
appended-IsVec v k x i room = record {
  used = omega arith;
  storage = length-set v.slots v.sz (k, x) ∙ i.storage;
}

add_one : (n : ℕ) → n + 1 ≡ suc n
add_one n = omega arith

contents-appended :
    (v : Vec Entry) (k x : Value)
    → IsVec v
    → v.sz < v.cap
    → contents (appended v k x) ≡ contents v ++ ((k, x) ∷ [])
contents-appended v k x i room =
    ap (λ n. take n (set v.slots v.sz (k, x))) (add_one v.sz)
    ∙ take-suc-set v.slots v.sz (k, x) (omega (arith, i.storage))

abbrev done : Actor → Out (Unit {0})
done a = Out.ok tt a

module _ (env : Env) {a : Actor} {h : ℕ} {v : Vec Entry} (valid : IsActor a)
    (g : Holds table_kind a 0 h v) (i : IsVec v) {k x : Value} (arg : Arg a 1 k) (last : Arg a 2 x)
    (small : v.cap < 2 ^ 56) where
  abbrev pub next_cap : ℕ
  next_cap = if v.cap == 0 then init_grow else v.cap * grow_factor

  abbrev store_new : Out (Unit {0})
  store_new = store_entry env (arg_at a 0) (arg_at a 1) (arg_at a 2) h v none a

  -- A new entry is put behind those in use, in a larger buffer if the table is full.
  store_new-cases :
      ((v.sz ≡ v.cap)
        × (env.heap_ok a.heap (next_cap * table_kind.elem_bytes) ≡ false)
        × (store_new ≡ error env AError.runtime "out of memory" [] a))
      ⊎ ((w : Vec Entry) × IsVec w
          × ((v.sz < v.cap) ⊎ (env.heap_ok a.heap (next_cap * table_kind.elem_bytes) ≡ true))
          × (contents w ≡ contents v ++ ((k, x) ∷ []))
          × (store_new ≡ Out.ok tt (with_object a h (Obj.table w))))
  unfolding store_entry grow_full
  store_new-cases = elim (Bool-cases (v.sz == v.cap)) [
    | inr spare ↦
        (let room : v.sz < v.cap = ground (arith, i.used) in
          inr (
            appended v k x,
            appended-IsVec v k x i room,
            inl room,
            contents-appended v k x i room,
            rw spare (append_entry_lem env valid arg last v g i room),
          ))
    | inl full ↦
        (let more : v.sz < next_cap = ground arith in
          let fits : v.sz ≤ next_cap = omega arith in
          elim (set_capacity-cases env table_kind valid g next_cap i fits (ground arith)
            (omega arith)) [
              | inr (no_room, e) ↦
                  inl (ground arith, no_room, rw full (rw e (error-and_then env _ _ _ _ a)))
              | inl (some_room, e) ↦
                  (let w : Vec Entry = recapped table_kind next_cap v in
                    let heap' : List Obj = set a.heap h (Obj.table w) in
                    let i' : IsVec w = recapped-IsVec table_kind i next_cap fits in
                    inr (
                      appended w k x,
                      appended-IsVec w k x i' more,
                      inr some_room,
                      contents-appended w k x i' more
                          ∙ ap (λ l. l ++ ((k, x) ∷ []))
                              (contents-recapped table_kind i next_cap fits),
                      rw full (
                          rw e (
                            append_entry_lem env (IsActor-heap heap' valid) (Arg-heap heap' arg)
                              (Arg-heap heap' last) w (Holds-with_object w g) i' more
                            ∙ ap done (with_object_twice a h (Obj.table w) _))),
                    ))
            ])
  ]

  abbrev replaced : ℕ → Vec Entry
  replaced j = record v { slots = set_value v.slots j x }

  store_old :
      (j : ℕ)
      → store_entry env (arg_at a 0) (arg_at a 1) (arg_at a 2) h v (some j) a
        ≡ Out.ok tt (with_object a h (Obj.table (replaced j)))
  unfolding store_entry
  store_old j = rw (at-Arg env valid last) refl

  -- In a native function with a well-formed table of less than 2^56 slots, a key and a value as
  -- its last three arguments, the key and those of the entries being pids, integers or strings:
  -- set/3 of std-table either raises the error of exhausted memory, with the table full, the key
  -- absent and no room on the heap for twice the capacity (or 64 entries), or, with the key
  -- known, a spare slot or that room, leaves the table of the dictionary with the value put under
  -- the key, well-formed, with nothing else changed, and pushes nil.
  pub lset-put :
      {q : Key} (d : Dict)
      → IsKey a.heap k q
      → Reads a.heap (contents v) d
      → ((v.sz ≡ v.cap)
          × (lookup q d ≡ none)
          × (env.heap_ok a.heap (next_cap * table_kind.elem_bytes) ≡ false)
          × (lset env a ≡ error env AError.runtime "out of memory" [] a))
        ⊎ ((w : Vec Entry) × IsVec w
            × (((y : Value) × (lookup q d ≡ some y))
                ⊎ (v.sz < v.cap)
                ⊎ (env.heap_ok a.heap (next_cap * table_kind.elem_bytes) ≡ true))
            × Reads (with_object a h (Obj.table w)).heap (contents w) (put q x d)
            × (lset env a ≡ push env Value.nil (with_object a h (Obj.table w))))
  unfolding lset
  lset-put {q} d key reads = rw (check_index-Arg env valid g.arg) (
      rw (check_index-Arg env valid arg) (
        rw (check_index-Arg env valid last) (
          rw (check_type-Arg env valid g.arg AType.table "not table" refl) (
            rw (vec_at-Holds env table_kind valid g) (
              rw (at-Arg env valid arg) (
                rw (check_key-IsKey env a key)
                  (elim (search_for-cases env valid g i arg key d reads) [
                    | inr (j, y, e, lt, at, found, stored) ↦
                        (let w : Vec Entry = replaced j in
                          inr (
                            w,
                            record {
                              used = i.used;
                              storage = length-set_value v.slots j x ∙ i.storage;
                            },
                            inl (y, found),
                            subst (λ es. Reads (set a.heap h (Obj.table w)) es (put q x d))
                                (sym (take-set_value v.sz v.slots j x lt))
                                (Reads-set a.heap h v w g.here (set_value (contents v) j x)
                                  (put q x d) (stored x)),
                            rw e (rw (store_old j) refl),
                          ))
                    | inl (e, absent) ↦ (elim store_new-cases [
                      | inl (full, no_room, e') ↦
                          inl (full, absent, no_room, rw e (rw e' (error-and_then env _ _ _ _ a)))
                      | inr (w, i', room, grown, e') ↦ inr (
                        w,
                        i',
                        inr room,
                        subst (λ es. Reads (set a.heap h (Obj.table w)) es (put q x d)) (sym grown)
                            (Reads-set a.heap h v w g.here (contents v ++ ((k, x) ∷ [])) (put q x d)
                              (Reads-append env.reals k q key x (contents v) d reads absent)),
                        rw e (rw e' refl),
                      )
                    ])
                  ])))))))
