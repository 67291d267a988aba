-- ===== src/Tests/Readings.antt =====
-- What the sensors read.
use hw_agent.Prelude.{◌≡◌, refl, true, false, none, some, codes, List, [], ◌∷◌, foldl, add64, arith}
use hw_agent.Float.Fixed.{Fixed, fixed_float}
use hw_agent.Core.Text.{is_digit}
use hw_agent.Sensors.Files.{holds, not_a_number}
use hw_agent.Sensors.Throttle
use hw_agent.Sensors.Throttle.{cpu_throttle_ratio-InUnit}
use hw_agent.Sensors.Network
use hw_agent.Sensors.Network.{IsReadable, network_ok}
use hw_agent.Sensors.Disk
use hw_agent.Sensors.Disk.{is_partition_device, is_alpha}
use hw_agent.Sensors.Disk.Partitions.{partition-letters}
use hw_agent.Sensors.Cpu
use hw_agent.Sensors.Memory
use hw_agent.Sensors.Softirqs.{start, scan, read_all}
use hw_agent.Sensors.Softirqs.Scanner.{between, clip, value_of, read_all-joined, scan-number}

abbrev cores : List (Throttle.Core × Throttle.Reading)
cores =
    (
      record {
        prev_core_throttle_count = 3;
        prev_package_throttle_count = 5;
        has_prev_counts = true;
      },
      record { core_throttle_count_file = holds 4; package_throttle_count_file = not_a_number },
    )
    ∷ []

abbrev eth0 : Network.InterfaceSource
eth0 = record {
  rx_packets_file = holds 1200;
  tx_packets_file = holds 800;
  rx_dropped_file = holds 10;
  tx_dropped_file = holds 0;
}

abbrev network : Network.Network
network = record { prev_total_packets = 1000; prev_total_drops = 2; has_prev = true }

abbrev sda : Disk.DiskStats
sda = record {
  name = codes "sda";
  reads_completed = 50;
  writes_completed = 40;
  io_in_progress = 1;
  io_ms = 300;
  weighted_io_ms = 500;
}

abbrev disk : Disk.Disk Fixed
disk = record {
  raw = Disk.no_fields;
  disk_wait_estimation_ms = some 0;
  prev_completed = 30;
  prev_weighted_io_ms = 100;
  has_prev = true;
}

abbrev stat : Cpu.Line
stat = Cpu.line (codes "cpu  100 0 50 800 50 0 0 0 0 0")

abbrev cpu : Cpu.Cpu
cpu = record { prev_total = 500; prev_idle = 400; has_prev = true }

abbrev memory : Memory.Memory Fixed
memory = record {
  raw = record {
    mem_total_kb = 0;
    mem_available_kb = 0;
    dirty_kb = 0;
    writeback_kb = 0;
    pgscan_total = 0;
    pgsteal_total = 0;
  };
  reclaim_activity = some 0;
  dirty_writeback_pressure = some 0;
  prev_pgsteal_total = 0;
  has_prev = false;
}

abbrev meminfo : Memory.Table
meminfo =
    Memory.entries (some (codes "MemTotal", 8000) ∷ some (codes "Dirty", 70) ∷ none ∷ []) false

partition-letters_example : is_partition_device (codes "sda12") ≡ true
unfolding is_digit is_alpha
partition-letters_example =
    partition-letters (codes "s") b'd' b'a' b'1' (codes "2") (ground arith) refl refl (ground arith)

read_all-joined_example :
    (read_all (codes "NET_RX: 12" ∷ codes "34 5\n" ∷ []) start false).0
    ≡ foldl scan start (codes "NET_RX: 1234 5\n")
read_all-joined_example =
    read_all-joined (codes "NET_RX: 12" ∷ codes "34 5\n" ∷ []) start false (ground arith)

scan-number_example :
    foldl scan (between 7) (codes "123 ") ≡ between (add64 7 (clip (value_of 0 (codes "123"))))
unfolding is_digit
scan-number_example = scan-number 7 b'1' (codes "23") (ground arith)
