-- ===== src/Sensors/Gpu/Handles.antt =====
-- The library that src/sensors/gpu/gpu_nvml.cpp opens and initialises, and its release.
use hw_agent.Prelude.{
  ℕ, ◌∙◌, Bool, true, false, ◌≡◌, refl, ◌+◌, ◌-◌, String, List, [], ◌∷◌, if◌then◌else◌, arith,
}
use hw_agent.Sensors.Gpu.Nvml.{
  Library, NvmlGpu, unloaded, resolve_either, resolve_all, and_then, resolve_symbols, read_limits,
  start_device, make_sensor, destroy, device_symbols,
}

-- A world that counts the handles of dlopen that are open and the calls of nvmlInit without a
-- nvmlShutdown.
pub record Counted (W : Type 0) : Type 0 where
  pub world : W
  pub handles : ℕ
  pub inits : ℕ

module _ {W : Type 0} (lib : Library W) where
  abbrev same : {A : Type 0} → Counted W → A × W → A × Counted W
  same c (a, w) = (a, record c { world = w })

  -- The same library, with its calls counted.
  abbrev pub counted : Library (Counted W)
  counted = record {
    dlopen = λ c.
        let (ok, w) = lib.dlopen c.world in
        (
          ok,
          record { world = w; handles = if ok then c.handles + 1 else c.handles; inits = c.inits },
        );
    dlsym = λ symbol c. same c (lib.dlsym symbol c.world);
    dlclose = λ c. record { world = lib.dlclose c.world; handles = c.handles - 1; inits = c.inits };
    init = λ c.
        let (ok, w) = lib.init c.world in
        (
          ok,
          record { world = w; handles = c.handles; inits = if ok then c.inits + 1 else c.inits },
        );
    shutdown =
        λ c. record { world = lib.shutdown c.world; handles = c.handles; inits = c.inits - 1 };
    device_handle_by_index = λ i c. same c (lib.device_handle_by_index i c.world);
    utilization_rates = λ c. same c (lib.utilization_rates c.world);
    memory_info = λ c. same c (lib.memory_info c.world);
    temperature = λ c. same c (lib.temperature c.world);
    clock_info = λ c. same c (lib.clock_info c.world);
    max_clock_info = λ c. same c (lib.max_clock_info c.world);
    power_usage = λ c. same c (lib.power_usage c.world);
    enforced_power_limit = λ c. same c (lib.enforced_power_limit c.world);
    current_clocks_throttle_reasons = λ c. same c (lib.current_clocks_throttle_reasons c.world);
  }

  -- A sensor holds what was opened since the counts were `handles` and `inits`.
  -- The same counts.
  abbrev Same : Counted W → Counted W → Type 0
  Same c c' = (c'.handles ≡ c.handles) × (c'.inits ≡ c.inits)

  resolve_either-Same : (a b : String) (c : Counted W) → Same c (resolve_either counted a b c).1
  unfolding resolve_either
  resolve_either-Same a b c = ground arith

  resolve_all-Same :
      (symbols : List String) (c : Counted W) → Same c (resolve_all counted symbols c).1
  unfolding resolve_all
  resolve_all-Same [] c = (refl, refl)
  resolve_all-Same (symbol ∷ rest) c =
      let later = resolve_all-Same rest (counted.dlsym symbol c).1 in ground (arith, later)

  -- A sensor holds what was opened since the counts were `handles` and `inits`.
  abbrev Holds : ℕ → ℕ → NvmlGpu × Counted W → Type 0
  Holds handles inits result =
      (result.1.handles ≡ (if result.0.loaded then handles + 1 else handles))
      × (result.1.inits ≡ (if result.0.initialized then inits + 1 else inits))

  resolve_symbols-Same : (c : Counted W) → Same c (resolve_symbols counted c).1
  unfolding resolve_symbols
  resolve_symbols-Same c =
      let c₁ = (resolve_either counted "nvmlInit_v2" "nvmlInit" c).1 in
      let c₂ = (counted.dlsym "nvmlShutdown" c₁).1 in
      let c₃ =
        (resolve_either counted "nvmlDeviceGetHandleByIndex_v2" "nvmlDeviceGetHandleByIndex"
          c₂).1 in
      ground (
        arith,
        resolve_either-Same "nvmlInit_v2" "nvmlInit" c,
        resolve_either-Same "nvmlDeviceGetHandleByIndex_v2" "nvmlDeviceGetHandleByIndex" c₂,
        resolve_all-Same device_symbols c₃,
      )

  -- A step that may end `init`.
  and_then-Holds :
      (h i : ℕ) (step : Bool × Counted W) (s : NvmlGpu) (next : Counted W → NvmlGpu × Counted W)
      → (step.0 ≡ false → Holds h i (s, step.1))
      → (step.0 ≡ true → Holds h i (next step.1))
      → Holds h i (and_then counted step s next)
  unfolding and_then
  and_then-Holds h i (true, c) s next stop go = go refl
  and_then-Holds h i (false, c) s next stop go = stop refl

  -- From a library that is open.
  start_device-Holds :
      (h i device_index : ℕ) (c : Counted W)
      → c.handles ≡ h + 1
      → c.inits ≡ i
      → Holds h i (start_device counted device_index c)
  unfolding start_device and_then read_limits
  start_device-Holds h i device_index c e e' = ground (arith, e, e')

  abbrev opened : NvmlGpu
  opened = record unloaded { loaded = true }

  -- The rest of `init`, from an open library.
  resolved-Holds :
      (h i device_index : ℕ) (c : Counted W)
      → c.handles ≡ h + 1
      → c.inits ≡ i
      → Holds h i
          (and_then counted (resolve_symbols counted c) opened (start_device counted device_index))
  resolved-Holds h i device_index c e e' =
      let same_counts = resolve_symbols-Same c in
      let handles = same_counts.0 ∙ e in
      let inits = same_counts.1 ∙ e' in
      and_then-Holds h i (resolve_symbols counted c) opened (start_device counted device_index)
        (λ _. (handles, inits))
        (λ _. start_device-Holds h i device_index (resolve_symbols counted c).1 handles inits)

  make_sensor-Holds :
      (device_index : ℕ) (c : Counted W)
      → Holds c.handles c.inits (make_sensor counted device_index c)
  unfolding make_sensor
  make_sensor-Holds device_index c =
      and_then-Holds c.handles c.inits (counted.dlopen c) unloaded
        (λ c₁.
          and_then counted (resolve_symbols counted c₁) opened (start_device counted device_index))
        (λ failed. (rw failed refl, refl))
        (λ found.
          resolved-Holds c.handles c.inits device_index (counted.dlopen c).1 (rw found refl) refl)

  -- Whatever of NVML is missing or fails, when a sensor is made and destroyed, each handle that dlopen
  -- gave is closed, and each initialisation is shut down.
  pub destroy-released :
      (device_index : ℕ) (c : Counted W)
      → let (s, c') = make_sensor counted device_index c in
        let (s', c'') = destroy counted s c' in (c''.handles ≡ c.handles) × (c''.inits ≡ c.inits)
  unfolding destroy
  destroy-released device_index c =
      let held = make_sensor-Holds device_index c in ground (arith, held)
