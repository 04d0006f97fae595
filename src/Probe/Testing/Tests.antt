-- ===== src/Probe/Testing/Tests.antt =====
-- crates/lightwatch-probe/src/testing.rs: the deepest chain of two contexts.
use lightwatch.Probe.Registry.Example.{two_tables, two-IsTree}
use lightwatch.Probe.Testing.{chain_of, nodes_of}
use lightwatch.Probe.Testing.Chains.{Ended, chain_of-Ended}

chain_of-Ended_example :
    Ended two_tables.functions two_tables.paths.nodes 2
      (chain_of two_tables.functions (nodes_of two_tables.paths) 2)
chain_of-Ended_example = chain_of-Ended two_tables.functions two_tables.paths 2 2 two-IsTree
