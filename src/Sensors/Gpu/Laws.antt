-- ===== src/Sensors/Gpu/Laws.antt =====
-- What the GPU sensors of src/sensors/gpu leave in the frame.
use hw_agent.Prelude.{◌≡◌, false, arith}
use hw_agent.Float.{Float}
use hw_agent.Frame.{SignalFrame}
use hw_agent.Sensors.Gpu.{collect_none}
use hw_agent.Sensors.Gpu.Nvml.{Library, NvmlGpu, collect}

module _ {F W : Type 0} ⦃f : Float F⦄ (lib : Library W) where
  -- A collection that fails, at whatever call, leaves the frame that the sensor without a GPU leaves.
  pub collect-none :
      (s : NvmlGpu) (frame : SignalFrame F) (w : W)
      → (collect lib s frame w).0 ≡ false
      → (collect lib s frame w).1 ≡ (collect_none frame).1
  unfolding collect collect_none
  collect-none s frame w h = ground arith
