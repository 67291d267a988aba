-- ===== src/Lib.antt =====
-- A model of hw-agent, the telemetry agent of this repository, and proofs about it.
--
-- The agent runs a fixed-rate loop. Each tick it lets the sensors that are due write raw signals
-- into one frame, turns them into six pressures and two risks (weighted sums of clamped signals,
-- smoothed by exponential moving averages), moves a four-level state with hysteresis, and publishes
-- the frame to RedisTimeSeries. The files, and what they model:
--
--   Frame                include/model/signal_frame.hpp: the frame and the agent's health
--   Core/Math            include/core/math.hpp: clamp01
--   Core/Sampler         src/core/sampler.cpp: the tick counter; Due counts the ticks of a sensor
--   Core/Text, Numbers   the string functions of src/core/config.cpp, and std::stoi, stoll and
--                        strtoull, over bytes
--   Core/Config          src/core/config.cpp: apply_key_value, one function for each branch that
--                        converts a value; Config/Load is load_agent_config, on the lines of the file
--   Derived              src/derived: `sample` of each class in a module of its own. Ema is the
--                        average that all of them keep; Weighted the sums of weights;
--                        Jitter/Window the ring of LatencyJitter
--   Risk                 src/risk: RealtimeRisk, SaturationRisk and SystemState (State)
--   Platform             what the program calls: clocks, hiredis, conversions of double
--   Sinks/Redis          src/sinks/redis_ts.cpp: Metrics builds the TS.MADD command, Connection is
--                        reconnect and its steps, Publish is publish and publish_impl; Schema puts a
--                        log of the commands and their replies beside the world
--   Agent                src/core/agent.cpp: Build is the constructor, Metrics is
--                        enabled_redis_metrics, Scoring and Cycle the loop. Files has the files that
--                        the members of include/core/agent.hpp hold, Machine the members as
--                        register_sensors uses them: the interface that the loop takes
--   Float                the arithmetic of float; Float/Fixed is one that runs
--   Sensors              src/sensors: `sample` of each sensor on what its files hold. Stdio is fopen
--                        and fclose; Streams and Discovery have the constructors and destructors,
--                        those of fixed paths and those that list directories (Thermal has its own);
--                        Leaks is about their handlers of exceptions. Gpu is src/sensors/gpu,
--                        Tegrastats the parser and the child of src/sensors/tegrastats.cpp, with
--                        Child for the child's branch after fork. Measured and Failures are about
--                        several of them
--   Mcp                  tools/hw-agent-mcp: JsonRpc is src/jsonrpc.cpp; Resources, Answer and Server
--                        are src/server.cpp; Window, Redis, Keys and Metrics are
--                        src/tools/metrics_summary.cpp; Json, Attempt and Action what they stand on;
--                        Replies, RoundTrip, Defined, Loop and Selection hold proofs
--   Main                 src/main.cpp
--   Tests                runs at concrete inputs
--
-- State. A class is a record of its members, and a method takes the record and returns the new one.
-- Clocks, hiredis and, for the loop, the sensors act on an abstract world W, which is passed through
-- in the order of the calls; so every interleaving of failures is an instance. An exception is
-- `throws` of Core.Config.Outcome, with a constructor of Failure for each place that throws. Unsigned
-- members wrap at their width: next32, add64 and sub64 write the wrap-around out. The readings of the
-- steady clock and next_wakeup_, which have 64 signed bits of nanoseconds, are natural numbers; what
-- is said of the schedule is for wake-ups that these bits hold.
--
-- Arithmetic. float is a parameter F with the operations that the sources use, `Float`. The laws
-- that the proofs need are those of IEEE 754 binary32, `IsFloat`: comparisons that are false on NaN,
-- monotone rounding, and operand ranges that give no NaN. `HasWeights` says that each sum of weights
-- of a score rounds to at most 1. std::stof, and the formatting of double, are parameters.
--
-- Bounds and fuel. One loop has fuel, that over the lines of the buffer of tegrastats; its caller gives
-- it the length of the buffer, and each line takes a byte at least. The other loops are recursion on a
-- list or a number. run_for_ticks(0), which never returns, is `none`. The loop of main runs for a given
-- number of readings of its flag, and ::read of a pipe gives a list of chunks and then its end.
--
-- tools/hw-agent-mcp. The values of nlohmann::json are a parameter J with the functions that the
-- sources call, `Json`, and the laws that the proofs need, `IsJson`. An exception is `raises` of
-- Mcp.Attempt, with its type and text; the overflow of a signed integer is `undefined`. A redisReply
-- is modelled as deep as the code looks into it.
--
-- Not modelled. src/sinks/stdout_debug.cpp and include/core/timestamp.hpp print and read clocks. The
-- constructors that are given open files, for tests, the accessors raw() and, in
-- src/sensors/network.cpp and power.cpp, the member that only raw() reads are left out, and so is an
-- exception of the containers of src/sensors/tegrastats.cpp. The TUI and the scripts are no C++.
-- std::regex, std::filesystem, POSIX, NVML and third_party/hiredis are parameters; sscanf and
-- std::strtof are taken by their results. The lines that the loop prints when Redis fails or
-- recovers, and those that the server writes to its error stream, change no state; redis_was_ok_ is
-- kept.
pub mod Prelude
pub mod Float
pub mod Frame
pub mod Core
pub mod Derived
pub mod Risk
pub mod Platform
pub mod Sinks
pub mod Agent
pub mod Sensors
pub mod Mcp
pub mod Main
pub mod Tests
