-- ===== src/Ide/Status.antt =====
-- The waits for the status of the controller end, if it is busy for a bounded time only.
use craft_osos.Base.{
  ℕ, zero, suc, ◌+◌, ◌<◌, ◌≡◌, inl, inr, Bool, true, false, ◌==◌, List, [], ◌∷◌, ◌++◌, map, arith,
  ap, ◌∙◌, Bool-cases, append-nil, append_assoc, bit_and, sym,
}
use craft_osos.Ide.Io.{
  Hardware, Ports, Write, finished, then_run, busy, spinwait_status_busy, wait_status_flags,
  timeout_loop, time_limit, run, outb,
}

-- From any time on the controller is not busy for at least one of so many reads of its status.
abbrev pub Responsive : Hardware → ℕ → Type 0
Responsive hw patience =
    (n : ℕ) → (k : ℕ) × (k < patience) × ((bit_and (hw.status (n + k)) busy == busy) ≡ false)

abbrev pub port_value : Write → ℕ × ℕ
port_value w = (w.port, w.value)

module _ (hw : Hardware) where
  spin_now :
      (fuel n : ℕ)
      → (bit_and (hw.status n) busy == busy) ≡ false
      → spinwait_status_busy hw (suc fuel) n ≡ finished (suc n)
  unfolding spinwait_status_busy
  spin_now fuel n free = rw free

  spin_on :
      (fuel n : ℕ)
      → (bit_and (hw.status n) busy == busy) ≡ true
      → spinwait_status_busy hw (suc fuel) n ≡ spinwait_status_busy hw fuel (suc n)
  unfolding spinwait_status_busy
  spin_on fuel n held = rw held

  spin-finishes :
      (fuel n k : ℕ)
      → k < fuel
      → (bit_and (hw.status (n + k)) busy == busy) ≡ false
      → (c : ℕ) × (spinwait_status_busy hw fuel n ≡ finished c)
  spin-finishes zero n k small free = absurd (omega arith)
  spin-finishes (suc fuel) n zero small free =
      let e : n + 0 ≡ n = omega arith in (suc n, spin_now fuel n (rw e at free))
  spin-finishes (suc fuel) n (suc k) small free =
      elim (Bool-cases (bit_and (hw.status n) busy == busy)) [
        | inr e ↦ (suc n, spin_now fuel n e)
        | inl held ↦
            (let e : n + suc k ≡ suc n + k = omega arith in
              let (c, h) = spin-finishes fuel (suc n) k (omega arith) (rw e at free) in
              (c, spin_on fuel n held ∙ h))
      ]

  module _ (patience : ℕ) (responsive : Responsive hw patience) where
    -- A wait ends, and changes nothing but the time.
    pub wait-finishes :
        (flags : ℕ) (set : Bool) (p : Ports)
        → (c : ℕ) × (wait_status_flags hw patience flags set p ≡ finished (record p { clock = c }))
    unfolding wait_status_flags
    wait-finishes flags set p =
        let (k, small, free) = responsive (p.clock) in
        let (c, h) = spin-finishes patience (p.clock) k small free in
        (
          timeout_loop hw time_limit flags set c,
          ap
              (λ r. then_run r (λ clock.
                finished (record p { clock = timeout_loop hw time_limit flags set clock })))
              h,
        )

    -- A sequence of writes ends, and what it has written is what it says.
    pub run-finishes :
        (ws : List Write) (p : Ports)
        → (c : ℕ) × (run hw patience ws p
            ≡ finished (record p { clock = c; out = p.out ++ map port_value ws }))
    unfolding run
    run-finishes [] p =
        (p.clock, ap (λ o. finished (record p { out = o })) (sym (append-nil (p.out))))
    run-finishes (w ∷ ws) p =
        let (c, waits) = wait-finishes (w.flags) (w.set) p in
        let q : Ports = record p { clock = c } in
        let (d, rest) = run-finishes ws (outb w q) in
        (
          d,
          ap (λ r. then_run r (λ q. run hw patience ws (outb w q))) waits
              ∙ rest
              ∙ ap (λ o. finished (record p { clock = d; out = o }))
                  (append_assoc (p.out) (port_value w ∷ []) (map port_value ws)),
        )
