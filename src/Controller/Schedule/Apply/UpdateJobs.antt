-- ===== src/Controller/Schedule/Apply/UpdateJobs.antt =====
-- The jobs that run a firmware update, among those of the fake device.
use shelly_operator.Base.{
  ℤ, true, false, List, [], ◌∷◌, ◌≡◌, refl, ap, select, All-mem, All-of_mem, Memᴰ, mem-select,
  eqz_comm, Bool-cases, inl, inr,
}
use shelly_operator.Shelly.Rpc.{ScheduleJob}
use shelly_operator.Shellytest.Schedules.{has_id, replace_first, remove_first}
use shelly_operator.Shellytest.Schedules.Laws.{Fresh, HasUniqueIds}
use shelly_operator.Controller.Firmware.{is_update_job}

module _ {F : Type 0} where
  -- The jobs that run a firmware update.
  abbrev pub update_jobs : List (ScheduleJob F) → List (ScheduleJob F)
  update_jobs js = select is_update_job js

  pub select-remove_first :
      (id : ℤ) (js : List (ScheduleJob F))
      → Fresh id (update_jobs js)
      → update_jobs (remove_first id js) ≡ update_jobs js
  unfolding remove_first
  select-remove_first id [] f = refl
  select-remove_first id (j ∷ js) f = elim (Bool-cases (is_update_job j)) [
    | inl u ↦
        let g : Fresh id (j ∷ update_jobs js) = rw u at f in
        rw g.0 (rw u (ap (λ l. j ∷ l) (select-remove_first id js g.1)))
    | inr u ↦
        let g : Fresh id (update_jobs js) = rw u at f in
        elim (Bool-cases (has_id id j)) [
          | inl h ↦ rw (h, u) refl
          | inr h ↦ rw h (rw u (select-remove_first id js g))
        ]
  ]

  pub select-replace_first :
      (job : ScheduleJob F) (js : List (ScheduleJob F))
      → is_update_job job ≡ false
      → Fresh job.id (update_jobs js)
      → update_jobs (replace_first job js) ≡ update_jobs js
  unfolding replace_first
  select-replace_first job [] n f = refl
  select-replace_first job (j ∷ js) n f = elim (Bool-cases (is_update_job j)) [
    | inl u ↦
        let g : Fresh job.id (j ∷ update_jobs js) = rw u at f in
        rw g.0 (rw u (ap (λ l. j ∷ l) (select-replace_first job js n g.1)))
    | inr u ↦
        let g : Fresh job.id (update_jobs js) = rw u at f in
        elim (Bool-cases (has_id job.id j)) [
          | inl h ↦ rw h (rw (n, u) refl)
          | inr h ↦ rw h (rw u (select-replace_first job js n g))
        ]
  ]

  ids_apart :
      (js : List (ScheduleJob F)) (a b : ScheduleJob F)
      → HasUniqueIds js
      → Memᴰ a js
      → Memᴰ b js
      → is_update_job a ≡ false
      → is_update_job b ≡ true
      → has_id a.id b ≡ false
  ids_apart [] a b u m k na nb = elim m [ ]
  ids_apart (j ∷ js) a b u (Memᴰ.head e) (Memᴰ.head d) na nb =
      cc (ap is_update_job e, ap is_update_job d)
  ids_apart (j ∷ js) a b u (Memᴰ.head e) (Memᴰ.tail m) na nb =
      rw e (All-mem (λ i. has_id j.id i ≡ false) u.0 m)
  ids_apart (j ∷ js) a b u (Memᴰ.tail m) (Memᴰ.head e) na nb =
      rw (eqz_comm b.id a.id) (rw e (All-mem (λ i. has_id j.id i ≡ false) u.0 m))
  ids_apart (j ∷ js) a b u (Memᴰ.tail m) (Memᴰ.tail k) na nb = ids_apart js a b u.1 m k na nb

  pub own-Fresh :
      (js : List (ScheduleJob F)) (a : ScheduleJob F)
      → HasUniqueIds js
      → Memᴰ a js × (is_update_job a ≡ false)
      → Fresh a.id (update_jobs js)
  own-Fresh js a u o =
      All-of_mem (λ b. has_id a.id b ≡ false) (update_jobs js)
        λ b m.
          let (there, up) = mem-select is_update_job js m in ids_apart js a b u o.0 there o.1 up
