-- ===== src/Sensors/Gpu/Nvml.antt =====
-- `NvmlGpuSensor` of src/sensors/gpu/gpu_nvml.cpp.
use hw_agent.Prelude.{
  ℕ, ◌/◌, Bool, true, false, String, Option, none, some, List, [], ◌∷◌, ◌==◌, ltb, if◌then◌else◌,
}
use hw_agent.Float.{Float}
use hw_agent.Frame.{SignalFrame}

-- The loader and the functions of NVML for the device of the sensor; a function that returns another
-- code than NVML_SUCCESS gives false or none.
pub record Library (W : Type 0) : Type 0 where
  pub dlopen : W → Bool × W
  -- dlsym is not null
  pub dlsym : String → W → Bool × W
  pub dlclose : W → W
  pub init : W → Bool × W
  pub shutdown : W → W
  pub device_handle_by_index : ℕ → W → Bool × W
  -- `gpu` and `memory`
  pub utilization_rates : W → Option (ℕ × ℕ) × W
  -- `free`
  pub memory_info : W → Option ℕ × W
  pub temperature : W → Option ℕ × W
  pub clock_info : W → Option ℕ × W
  pub max_clock_info : W → Option ℕ × W
  pub power_usage : W → Option ℕ × W
  pub enforced_power_limit : W → Option ℕ × W
  pub current_clocks_throttle_reasons : W → Option ℕ × W

-- `library_ != nullptr`, `initialized_`, `available_` and the two limits.
pub record NvmlGpu : Type 0 where
  pub loaded : Bool
  pub initialized : Bool
  pub available : Bool
  pub max_graphics_clock_mhz : ℕ
  pub power_limit_mw : ℕ

abbrev pub unloaded : NvmlGpu
unloaded = record {
  loaded = false;
  initialized = false;
  available = false;
  max_graphics_clock_mhz = 0;
  power_limit_mw = 0;
}

-- The symbols that have one name.
abbrev pub device_symbols : List String
device_symbols =
    "nvmlDeviceGetUtilizationRates" ∷ "nvmlDeviceGetMemoryInfo" ∷ "nvmlDeviceGetTemperature"
    ∷ "nvmlDeviceGetClockInfo" ∷ "nvmlDeviceGetMaxClockInfo" ∷ "nvmlDeviceGetPowerUsage"
    ∷ "nvmlDeviceGetEnforcedPowerLimit" ∷ "nvmlDeviceGetCurrentClocksThrottleReasons" ∷ []

-- What a call left in its output, which starts at 0.
abbrev pub or_zero : Option ℕ → ℕ
or_zero none = 0
or_zero (some n) = n

module _ {W : Type 0} (lib : Library W) where
  -- `resolve(…) || resolve(…)`
  unfoldable pub resolve_either : String → String → W → Bool × W
  resolve_either symbol other w =
      let (found, w') = lib.dlsym symbol w in if found then (true, w') else lib.dlsym other w'

  -- `resolve(…) && …`, up to the first symbol that is missing
  unfoldable pub resolve_all : List String → W → Bool × W
  resolve_all [] w = (true, w)
  resolve_all (symbol ∷ rest) w =
      let (found, w') = lib.dlsym symbol w in
      let others = resolve_all rest w' in if found then others else (false, w')

  -- a condition of `init` that returns early
  unfoldable pub and_then : Bool × W → NvmlGpu → (W → NvmlGpu × W) → NvmlGpu × W
  and_then (true, w) s next = next w
  and_then (false, w) s next = (s, w)

  -- All that `init` resolves, up to the first symbol that is missing.
  unfoldable pub resolve_symbols : W → Bool × W
  unfolding resolve_either resolve_all
  resolve_symbols w =
      let (has_init, w₁) = resolve_either "nvmlInit_v2" "nvmlInit" w in
      let (has_shutdown, w₂) = lib.dlsym "nvmlShutdown" w₁ in
      let (has_handle, w₃) =
        resolve_either "nvmlDeviceGetHandleByIndex_v2" "nvmlDeviceGetHandleByIndex" w₂ in
      if has_init
      then if has_shutdown
        then if has_handle then resolve_all device_symbols w₃ else (false, w₃)
        else (false, w₂)
      else (false, w₁)

  -- The end of `init`, for a device.
  unfoldable pub read_limits : W → NvmlGpu × W
  read_limits w =
      let (max_clock, w₁) = lib.max_clock_info w in
      let (power_limit, w₂) = lib.enforced_power_limit w₁ in
      (
        record {
          loaded = true;
          initialized = true;
          available = true;
          max_graphics_clock_mhz = or_zero max_clock;
          power_limit_mw = or_zero power_limit;
        },
        w₂,
      )

  -- From the call of nvmlInit.
  unfoldable pub start_device : ℕ → W → NvmlGpu × W
  unfolding and_then read_limits
  start_device device_index w =
      let opened = record unloaded { loaded = true } in
      let running = record opened { initialized = true } in
      and_then (lib.init w) opened
        λ w₁. and_then (lib.device_handle_by_index device_index w₁) running read_limits

  -- `init()`, which the constructor calls
  unfoldable pub make_sensor : ℕ → W → NvmlGpu × W
  unfolding and_then resolve_symbols start_device
  make_sensor device_index w = and_then (lib.dlopen w) unloaded λ w₁.
      and_then (resolve_symbols w₁) (record unloaded { loaded = true }) (start_device device_index)

  -- The destructor. An initialised sensor has resolved `nvmlShutdown`.
  unfoldable pub destroy : NvmlGpu → W → NvmlGpu × W
  destroy s w =
      let w' = if s.initialized then lib.shutdown w else w in
      (record s { loaded = false; initialized = false }, if s.loaded then lib.dlclose w' else w')

module _ {F W : Type 0} ⦃f : Float F⦄ (lib : Library W) where
  -- `set_defaults`
  unfoldable pub set_defaults : SignalFrame F → SignalFrame F
  set_defaults frame = record frame {
    gpu_util = f.lit 0 1;
    gpu_mem_util = f.lit 0 1;
    emc_util = f.lit 0 1;
    gpu_mem_free = f.lit 0 1;
    gpu_temp = f.lit 0 1;
    gpu_clock_ratio = f.lit 0 1;
    gpu_power_ratio = f.lit 0 1;
    gpu_throttle = f.lit 0 1;
    nvml_gpu_util = f.lit 0 1;
    nvml_gpu_temp = f.lit 0 1;
    nvml_gpu_power_ratio = f.lit 0 1;
  }

  -- A call in the condition of `collect`: the first that fails ends it.
  unfoldable pub require :
      {A : Type 0}
      → Option A × W
      → SignalFrame F
      → (A → W → Bool × SignalFrame F × W)
      → Bool × SignalFrame F × W
  unfolding set_defaults
  require (none, w) frame next = (false, set_defaults frame, w)
  require (some a, w) frame next = next a w

  -- a / b, or 0 for a limit of 0
  unfoldable pub ratio : ℕ → ℕ → F
  ratio value limit = if ltb 0 limit then f.div (f.of_nat value) (f.of_nat limit) else f.lit 0 1

  unfoldable pub collect : NvmlGpu → SignalFrame F → W → Bool × SignalFrame F × W
  unfolding require set_defaults ratio
  collect s frame w =
      let measured = require (lib.utilization_rates w) frame λ util w₁.
        require (lib.memory_info w₁) frame λ free w₂.
          require (lib.temperature w₂) frame λ temp_c w₃.
            require (lib.clock_info w₃) frame λ graphics_clock_mhz w₄.
              require (lib.power_usage w₄) frame λ power_mw w₅.
                require (lib.current_clocks_throttle_reasons w₅) frame λ throttle_reasons w₆. (
                  true,
                  record frame {
                    gpu_util = f.of_nat util.0;
                    nvml_gpu_util = f.of_nat util.0;
                    gpu_mem_util = f.of_nat util.1;
                    emc_util = f.lit 0 1;
                    gpu_mem_free = f.of_nat (free / 1_048_576);
                    gpu_temp = f.of_nat temp_c;
                    nvml_gpu_temp = f.of_nat temp_c;
                    gpu_clock_ratio = ratio graphics_clock_mhz s.max_graphics_clock_mhz;
                    gpu_power_ratio = ratio power_mw s.power_limit_mw;
                    nvml_gpu_power_ratio = ratio power_mw s.power_limit_mw;
                    gpu_throttle = if throttle_reasons == 0 then f.lit 0 1 else f.lit 1 1;
                  },
                  w₆,
                ) in
      if s.available then measured else (false, set_defaults frame, w)
