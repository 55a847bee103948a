-- ===== src/Testbench.antt =====
-- The SystemC testbenches of top_cache_axi/tb and top_tcm_axi/tb: their signals, the AXI memory, the
-- memories of testbench.h, and the modules around the generated hardware. SystemC, `rand` and the
-- hardware are parameters: the time, the values of the coin, and the pins.
pub mod Regions
pub mod Axi
pub mod AxiLite
pub mod CacheTop
pub mod TcmTop
pub mod Burst
pub mod Process
pub mod Bench
pub mod CommandLine
pub mod TcmBench
