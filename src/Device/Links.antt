-- ===== src/Device/Links.antt =====
-- sccp_device.c: the predicate of Valid under changes of a device: the calls are held, one is
-- activated, made, cleared, or two are related.
use wazo_libsccp.Common.{
  ℕ, ◌+◌, ◌==◌, ◌≡◌, refl, sym, ap, subst, true, false, ◌||◌, List, [], ◌∷◌, ◌++◌, Option, none,
  some, if◌then◌else◌, is_some, arith, Bool-cases, inl, inr, ==_iff,
}
use mathlib.Core.Path.{fun_ext}
use wazo_libsccp.Device.Types.{RecvStatus, recv_closed}
use wazo_libsccp.Device.Core.{is_recv_closed}
use wazo_libsccp.Device.Calls.{is_ptr, remove}
use wazo_libsccp.Device.Valid.{
  mem, mem_or_null, Paired, Valid, mem-append, mem-lt, fresh_not_mem, mem-remove, AllBelow-snoc,
  AllDistinct-snoc, AllDistinct-remove, AllBelow-remove,
}

-- The links after `p` and its partner are cut loose.
abbrev pub unlinked : (ℕ → Option ℕ) → ℕ → ℕ → Option ℕ
unlinked rel p x = if x == p then none else if is_ptr x (rel p) then none else rel x

module _ {ps : List ℕ} {n : ℕ} {a : Option ℕ} {r : RecvStatus} {rel : ℕ → Option ℕ}
    (v : Valid ps n a r rel) where
  pub Valid-hold : Valid ps n none recv_closed rel
  Valid-hold = record {
    distinct = v.distinct;
    allocated = v.allocated;
    active_listed = refl;
    recv_has_active = refl;
    paired = v.paired;
  }

  pub Valid-activate : (p : ℕ) (r' : RecvStatus) → mem p ps ≡ true → Valid ps n (some p) r' rel
  Valid-activate p r' m = record {
    distinct = v.distinct;
    allocated = v.allocated;
    active_listed = m;
    recv_has_active = ground arith;
    paired = v.paired;
  }

  pub Valid-grow : Valid (ps ++ n ∷ []) (n + 1) a r (λ q. if q == n then none else rel q)
  Valid-grow = record {
    distinct = AllDistinct-snoc n ps (fresh_not_mem n ps v.allocated) v.distinct;
    allocated = AllBelow-snoc n ps v.allocated;
    active_listed = still a v.active_listed;
    recv_has_active = v.recv_has_active;
    paired = λ p m. elim (Bool-cases (p == n)) [
      | inl e ↦ rw e tt
      | inr ne ↦
          let old : mem p ps ≡ true = ground (arith, mem-append p ps (n ∷ [])) in
          rw ne (grown p (rel p) (v.paired p old))
    ];
  }
    where
      still : (b : Option ℕ) → mem_or_null b ps ≡ true → mem_or_null b (ps ++ n ∷ []) ≡ true
      still none h = refl
      still (some p) h = ground (arith, mem-append p ps (n ∷ []))

      grown :
          (p : ℕ) (o : Option ℕ)
          → Paired ps rel p o
          → Paired (ps ++ n ∷ []) (λ q. if q == n then none else rel q) p o
      grown p none h = tt
      grown p (some q) h =
          let below = mem-lt q n ps v.allocated h.0 in
          (ground (arith, mem-append q ps (n ∷ [])), ground arith, h.2)

  Paired-remove :
      (p x : ℕ) (o : Option ℕ)
      → mem p ps ≡ true
      → mem x ps ≡ true
      → (x == p) ≡ false
      → is_ptr x (rel p) ≡ false
      → rel x ≡ o
      → Paired ps rel x o
      → Paired (remove p ps) (unlinked rel p) x o
  Paired-remove p x none mp mx ne other e h = tt
  Paired-remove p x (some y) mp mx ne other e h = (
    ground (arith, mem-remove y p ps v.distinct, y_ne_p),
    ground (arith, y_ne_p, y_no_partner),
    h.2,
  )
    where
      y_ne_p : (y == p) ≡ false
      y_ne_p = elim (Bool-cases (y == p)) [
        | inl hit ↦ ground (arith, ap rel ((==_iff y p).0 hit))
        | inr miss ↦ miss
      ]

      partner_of : (o : Option ℕ) → Paired ps rel p o → is_ptr y o ≡ false
      partner_of none k = refl
      partner_of (some z) k = elim (Bool-cases (y == z)) [
        | inl hit ↦ ground (arith, ap rel ((==_iff y z).0 hit))
        | inr miss ↦ miss
      ]

      y_no_partner : is_ptr y (rel p) ≡ false
      y_no_partner = partner_of (rel p) (v.paired p mp)

  pub Valid-clear :
      (p : ℕ) (r' : RecvStatus)
      → mem p ps ≡ true
      → (is_recv_closed r' || is_some (if is_ptr p a then none else a)) ≡ true
      → Valid (remove p ps) n (if is_ptr p a then none else a) r' (unlinked rel p)
  Valid-clear p r' mp open_or_active = record {
    distinct = AllDistinct-remove p ps v.distinct;
    allocated = AllBelow-remove p n ps v.allocated;
    active_listed = still a v.active_listed;
    recv_has_active = open_or_active;
    paired = λ x m.
        let split = mem-remove x p ps v.distinct in
        elim (Bool-cases (x == p)) [
          | inl e ↦ rw e tt
          | inr ne ↦ elim (Bool-cases (is_ptr x (rel p))) [
            | inl partner ↦ rw (ne, partner) tt
            | inr other ↦
                let listed : mem x ps ≡ true = ground (arith, split) in
                rw (ne, other)
                  (Paired-remove p x (rel x) mp listed ne other refl (v.paired x listed))
          ]
        ];
  }
    where
      still :
          (b : Option ℕ)
          → mem_or_null b ps ≡ true
          → mem_or_null (if is_ptr p b then none else b) (remove p ps) ≡ true
      still none h = refl
      still (some q) h = ground (arith, mem-remove q p ps v.distinct)

-- Only what the links are matters.
pub Valid-links :
    {ps : List ℕ} {n : ℕ} {a : Option ℕ} {r : RecvStatus} {rel rel' : ℕ → Option ℕ}
    → ((x : ℕ) → rel' x ≡ rel x)
    → Valid ps n a r rel
    → Valid ps n a r rel'
Valid-links {ps} {n} {a} {r} same v = subst (Valid ps n a r) (sym (fun_ext same)) v

-- The same for every field.
pub Valid-at :
    {ps ps' : List ℕ} {n n' : ℕ} {a a' : Option ℕ} {r r' : RecvStatus} {rel rel' : ℕ → Option ℕ}
    → ps' ≡ ps
    → n' ≡ n
    → a' ≡ a
    → r' ≡ r
    → ((x : ℕ) → rel' x ≡ rel x)
    → Valid ps n a r rel
    → Valid ps' n' a' r' rel'
Valid-at eps en ea er same v = rw (eps, en, ea, er) (Valid-links same v)

-- The links after `p` and `q` are related.
abbrev pub linked : (ℕ → Option ℕ) → ℕ → ℕ → ℕ → Option ℕ
linked rel p q x = if x == q then some p else if x == p then some q else rel x

-- Two subchannels of the line without a partner become partners, and one is made active.
pub Valid-pair :
    {ps : List ℕ} {n : ℕ} {a : Option ℕ} {r : RecvStatus} {rel : ℕ → Option ℕ}
    → Valid ps n a r rel
    → (p q : ℕ) → mem p ps ≡ true
    → mem q ps ≡ true
    → (p == q) ≡ false
    → rel p ≡ none
    → rel q ≡ none
    → Valid ps n (some q) r (linked rel p q)
Valid-pair {ps} {n} {a} {r} {rel} v p q mp mq ne alone_p alone_q = record {
  distinct = v.distinct;
  allocated = v.allocated;
  active_listed = mq;
  recv_has_active = ground arith;
  paired = λ x m. elim (Bool-cases (x == q)) [
    | inl e ↦ rw e (mp, ground arith, ground arith)
    | inr not_q ↦ elim (Bool-cases (x == p)) [
      | inl e ↦ rw (not_q, e) (mq, ground arith, ground arith)
      | inr not_p ↦ rw (not_q, not_p) (others x (rel x) not_q not_p refl (v.paired x m))
    ]
  ];
}
  where
    others :
        (x : ℕ) (o : Option ℕ)
        → (x == q) ≡ false
        → (x == p) ≡ false
        → rel x ≡ o
        → Paired ps rel x o
        → Paired ps (linked rel p q) x o
    others x none not_q not_p e h = tt
    others x (some y) not_q not_p e h = elim (Bool-cases (y == q)) [
      | inl hit ↦ ground (arith, ap rel ((==_iff y q).0 hit))
      | inr miss ↦ elim (Bool-cases (y == p)) [
        | inl hit ↦ ground (arith, ap rel ((==_iff y p).0 hit))
        | inr gone ↦ (h.0, rw (miss, gone) h.1, h.2)
      ]
    ]
