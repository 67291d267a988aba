-- ===== src/Sensors/Gpu.antt =====
-- src/sensors/gpu: the sensor that asks NVML, and the one for machines without a GPU. NVML, its loader
-- and its device are an interface.
pub mod Nvml
pub mod Laws
pub mod Handles
use hw_agent.Prelude.{Bool, false}
use hw_agent.Float.{Float}
use hw_agent.Frame.{SignalFrame}

module _ {F : Type 0} ⦃f : Float F⦄ where
  -- `NoneGpuSensor::collect`
  unfoldable pub collect_none : SignalFrame F → Bool × SignalFrame F
  collect_none frame = (
    false,
    record frame {
      gpu_util = f.lit 0 1;
      gpu_mem_util = f.lit 0 1;
      emc_util = f.lit 0 1;
      gpu_mem_free = f.lit 0 1;
      gpu_temp = f.lit 0 1;
      gpu_clock_ratio = f.lit 0 1;
      gpu_power_ratio = f.lit 0 1;
      gpu_throttle = f.lit 0 1;
      nvml_gpu_util = f.lit 0 1;
      nvml_gpu_temp = f.lit 0 1;
      nvml_gpu_power_ratio = f.lit 0 1;
    },
  )
